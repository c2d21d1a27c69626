-- ===== src/Apply/Containers.antt =====
-- netbox_sync/netbox_lxc_apply.py: containers. All of them are checked before the first one is
-- written; what is printed is left out.
pub mod Writes
pub mod Again
pub mod Justified
pub mod Laws
use infra_sync.Prelude.{
  ℕ, ◌+◌, ◌/◌, ◌^◌, String, Bool, true, false, not, ◌&&◌, Option, none, some, List, [], ◌∷◌, ◌++◌,
  ◌==◌, eqb, if◌then◌else◌, mem_text, Result, ok, err, ◌>>=◌, keep, any,
}
use infra_sync.Json.{Json, num, str, obj, Fields, end, get, or_null}
use infra_sync.Discovery.{Container}
use infra_sync.Identity.Record.{IdentityError}
use infra_sync.Metadata.Containers.{
  find_lxc_sync_identity_matches, build_lxc_custom_fields, managed_lxc_custom_fields,
}
use infra_sync.Apply.Changes.{Check, diff}
use infra_sync.Apply.NetBox.{Machine, Python}
use infra_sync.Apply.Machines.{sum_sizes}
use infra_sync.Apply.Patched.{custom_change}

-- The `LXCApplyError`s; an identity that cannot be read is a `ValueError` that passes through, as
-- does what NetBox raises.
pub data LxcApplyError (E : Type 0) : Type 0 where
  missing_site ambiguous_cluster unsupported_status : LxcApplyError E
  duplicate_discovered duplicate_identity outside_cluster adoption_candidate : LxcApplyError E
  unreadable : IdentityError → LxcApplyError E
  raised : E → LxcApplyError E

-- What `_desired_fields` returns.
pub record Desired : Type 0 where
  pub name : String
  pub cluster : ℕ
  pub status : String
  pub vcpus : ℕ
  pub memory : ℕ
  pub disk : ℕ
  pub start_on_boot : String
  pub custom_fields : Fields

pub record LxcContext : Type 0 where
  pub container : Container
  pub existing : Option Machine
  pub desired : Desired
  pub changes : List (String × Json)

-- `vm.cluster.id == cluster.id`
abbrev pub is_in : ℕ → Machine → Bool
is_in cluster m = elim m.cluster [ some id ↦ eqb id cluster | none ↦ false ]

-- The current cluster is an object with an id, or the id.
unfoldable pub cluster_value : Json → Json
cluster_value (obj fs) = or_null (get "id" fs)
cluster_value v = v

-- The comparisons of `_changes`, in its order.
unfoldable pub lxc_checks : Desired → List Check
lxc_checks d =
    record { key = "name"; reader = λ v. v; wanted = str d.name }
    ∷ record { key = "status"; reader = λ v. v; wanted = str d.status }
    ∷ record { key = "vcpus"; reader = λ v. v; wanted = num d.vcpus }
    ∷ record { key = "memory"; reader = λ v. v; wanted = num d.memory }
    ∷ record { key = "disk"; reader = λ v. v; wanted = num d.disk }
    ∷ record { key = "start_on_boot"; reader = λ v. v; wanted = str d.start_on_boot }
    ∷ record { key = "cluster"; reader = cluster_value; wanted = num d.cluster }
    ∷ []

-- The arguments of the creation, `**desired`.
abbrev pub create_items : Desired → List (String × Json)
create_items d =
    ("name", str d.name)
    ∷ ("cluster", num d.cluster)
    ∷ ("status", str d.status)
    ∷ ("vcpus", num d.vcpus)
    ∷ ("memory", num d.memory)
    ∷ ("disk", num d.disk)
    ∷ ("start_on_boot", str d.start_on_boot)
    ∷ ("custom_fields", obj d.custom_fields)
    ∷ []

module _ (py : Python) where
  open py use {print, sort_key, same, casefold}

  abbrev pub lxc_differs : Fields → Fields → String → Bool
  lxc_differs existing desired key =
      not (same (or_null (get key existing)) (or_null (get key desired)))

  unfoldable pub lxc_changes : Machine → Desired → List (String × Json)
  unfolding lxc_checks
  lxc_changes existing d =
      diff same (lxc_checks d) existing.serialized
      ++ custom_change
          (any (lxc_differs existing.custom_fields d.custom_fields) managed_lxc_custom_fields)
          d.custom_fields

  -- An object without a tenant or with any one, of the cluster and the name.
  unfoldable pub adoption_candidates : List Machine → ℕ → Container → List Machine
  adoption_candidates all_machines cluster container =
      keep (λ (m : Machine). casefold m.name == casefold container.original_name)
        (keep (is_in cluster) all_machines)

  module _ {E : Type 0} where
    unfoldable pub lxc_status : String → Result (LxcApplyError E) String
    lxc_status status =
        if status == "running"
        then ok "active"
        else if status == "stopped"
        then ok "offline"
        else if status == "paused"
        then ok "paused"
        else err unsupported_status

    abbrev pub read : {A : Type 0} → Result IdentityError A → Result (LxcApplyError E) A
    read (ok a) = ok a
    read (err e) = err (unreadable e)

    unfoldable pub desired_fields : Container → ℕ → Fields → Result (LxcApplyError E) Desired
    unfolding lxc_status
    desired_fields container cluster current = do
      custom_fields ← read (build_lxc_custom_fields print sort_key container current)
      status ← lxc_status container.status
      ok (record {
        name = container.original_name;
        cluster = cluster;
        status = status;
        vcpus = container.vcpus;
        memory = container.memory_bytes / 1024 ^ 2;
        disk = sum_sizes container.disks / 1024 ^ 2;
        start_on_boot = if container.autostart then "on" else "off";
        custom_fields = custom_fields;
      })

    module _ (all_machines : List Machine) (cluster : ℕ) (container : Container) where
      -- The rest of the loop's body, for a new container and for a known one.
      unfoldable pub new_context : Result (LxcApplyError E) LxcContext
      unfolding desired_fields
      new_context = do
        desired ← desired_fields container cluster end
        ok (record { container = container; existing = none; desired = desired; changes = [] })

      unfoldable pub known_context : Machine → Result (LxcApplyError E) LxcContext
      unfolding desired_fields lxc_changes
      known_context existing = do
        desired ← desired_fields container cluster existing.custom_fields
        ok (record {
          container = container;
          existing = some existing;
          desired = desired;
          changes = lxc_changes existing desired;
        })

      abbrev pub unless_candidate : List Machine → Result (LxcApplyError E) LxcContext
      unless_candidate [] = new_context
      unless_candidate (m ∷ ms) = err adoption_candidate

      abbrev pub by_identity : List Machine → Result (LxcApplyError E) LxcContext
      by_identity [] = unless_candidate (adoption_candidates all_machines cluster container)
      by_identity (existing ∷ []) =
          if not (is_in cluster existing) then err outside_cluster else known_context existing
      by_identity (m ∷ n ∷ ms) = err duplicate_identity

      unfoldable pub preflight_container : Result (LxcApplyError E) LxcContext
      unfolding new_context known_context adoption_candidates
      preflight_container =
          read (
            find_lxc_sync_identity_matches print (λ (m : Machine). m.custom_fields) all_machines
              container)
          >>= by_identity

    -- The loop over the containers: `seen` is `discovered_ids`.
    unfoldable pub preflight_containers :
        (all_machines : List Machine)
        → ℕ
        → (seen : List String) → List Container
        → Result (LxcApplyError E) (List LxcContext)
    unfolding preflight_container
    preflight_containers all_machines cluster seen [] = ok []
    preflight_containers all_machines cluster seen (c ∷ cs) =
        let rest = preflight_containers all_machines cluster (c.source_id ∷ seen) cs in
        if mem_text c.source_id seen then err duplicate_discovered else (do
          context ← preflight_container all_machines cluster c
          contexts ← rest
          ok (context ∷ contexts))
