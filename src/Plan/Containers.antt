-- ===== src/Plan/Containers.antt =====
-- netbox_sync/netbox_lxc_planner.py: the plan of the containers of a host. What is printed is left
-- out, the exceptions that printing raises are not.
pub mod Laws
use infra_sync.Prelude.{
  ℕ, ◌+◌, String, Bool, true, false, ◌&&◌, Option, none, some, List, [], ◌∷◌, ◌==◌, if◌then◌else◌,
  Result, ok, err, ◌>>=◌, keep,
}
use infra_sync.Json.{Json, Fields, end}
use infra_sync.Discovery.{Container, Host}
use infra_sync.Metadata.Containers.{find_lxc_sync_identity_matches, build_lxc_custom_fields}
use infra_sync.Apply.NetBox.{Machine, Python}
use infra_sync.Plan.{Counters, no_counts, has_no_tenant}
use infra_sync.Plan.Machines.{PlanError, unsupported_status, read}

-- `_status`
unfoldable pub plan_status : String → Result PlanError String
plan_status status =
    if status == "running"
    then ok "active"
    else if status == "stopped"
    then ok "offline"
    else if status == "paused"
    then ok "paused"
    else err unsupported_status

module _ (py : Python) where
  open py use {print, sort_key, casefold}

  unfoldable pub name_candidates : List Machine → Container → List Machine
  unfolding has_no_tenant
  name_candidates existing container =
      keep (λ (m : Machine). casefold m.name == casefold container.original_name && has_no_tenant m)
        existing

  -- The end of the loop's body: what printing the desired fields can raise.
  unfoldable pub show_desired : Container → Fields → Counters → Result PlanError Counters
  unfolding plan_status
  show_desired container existing c = do
    status ← plan_status container.status
    desired ← read (build_lxc_custom_fields print sort_key container existing)
    ok c

  abbrev pub named : Container → Counters → List Machine → Result PlanError Counters
  unfolding show_desired
  named container c [] = show_desired container end (record c { created = c.created + 1 })
  named container c (m ∷ []) =
      show_desired container m.custom_fields (record c { adopt_candidate = c.adopt_candidate + 1 })
  named container c (m ∷ n ∷ ms) = ok (record c { conflict = c.conflict + 1 })

  abbrev pub identified :
      List Machine → Container → Counters → List Machine → Result PlanError Counters
  unfolding name_candidates show_desired
  identified existing container c [] = named container c (name_candidates existing container)
  identified existing container c (m ∷ []) =
      show_desired container m.custom_fields (record c { matched = c.matched + 1 })
  identified existing container c (m ∷ n ∷ ms) = ok (record c { conflict = c.conflict + 1 })

  -- The loop.
  unfoldable pub plan_containers :
      List Machine → Counters → List Container → Result PlanError Counters
  unfolding name_candidates show_desired
  plan_containers existing c [] = ok c
  plan_containers existing c (container ∷ containers) = do
    matches ←
        read (
          find_lxc_sync_identity_matches print (λ (m : Machine). m.custom_fields) existing
            container)
    c' ← identified existing container c matches
    plan_containers existing c' containers

  unfoldable pub plan_lxc_containers :
      (List Container → List Container) → Host → List Machine → Result PlanError Counters
  unfolding plan_containers
  plan_lxc_containers sort_by_vmid host existing =
      plan_containers existing no_counts (sort_by_vmid host.containers)
