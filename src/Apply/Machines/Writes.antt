-- ===== src/Apply/Machines/Writes.antt =====
-- `apply_virtual_machines`: every check, and then the writes.
use infra_sync.Prelude.{
  ℕ, ◌+◌, String, Bool, true, false, not, ◌&&◌, ◌||◌, Option, none, some, List, [], ◌∷◌, ◌++◌, map,
  if◌then◌else◌, mem_text, Result, ok, err, ◌>>=◌, ◌>>◌, require, keep, any,
}
use infra_sync.Json.{Json, num, str, get, or_null}
use infra_sync.Discovery.{VirtualMachine, Host}
use infra_sync.Config.{NetBoxTargetConfig}
use infra_sync.Apply.NetBox.{Machine, Cluster, Python, Api}
use infra_sync.Apply.Machines.{
  ApplyError, Context, Summary, create_fields, desired_status, machine_identity, no_writes,
  object_id, missing_site, missing_cluster_type, ambiguous_cluster, duplicate_identities,
  duplicate_names, precheck_failed, raised, blocked, create, matched,
}
use infra_sync.Apply.Machines.Preflight.{is_blocked, preflight_all}

module _ (py : Python) where
  open py use {same, casefold, sort_machines}

  abbrev pub has_duplicates : List String → Bool
  has_duplicates [] = false
  has_duplicates (k ∷ ks) = mem_text k ks || has_duplicates ks

  abbrev pub discovered : List Host → List VirtualMachine
  discovered [] = []
  discovered (h ∷ hs) = h.virtual_machines ++ discovered hs

  abbrev pub resolved : {E A : Type 0} → ApplyError E → Option A → Result (ApplyError E) A
  resolved e none = err e
  resolved e (some a) = ok a

  -- `_resolve_cluster`
  abbrev is_target : ℕ → ℕ → Cluster → Bool
  is_target site cluster_type c =
      same (object_id (or_null (get "type" c.serialized))) (num cluster_type)
      && same (or_null (get "scope_type" c.serialized)) (str "dcim.site")
      && same (or_null (get "scope_id" c.serialized)) (num site)

  abbrev only : {E : Type 0} → List Cluster → Result (ApplyError E) Cluster
  only [] = err ambiguous_cluster
  only (c ∷ []) = ok c
  only (c ∷ d ∷ cs) = err ambiguous_cluster

  unfoldable pub resolve_cluster :
      {E : Type 0} → ℕ → ℕ → List Cluster → Result (ApplyError E) Cluster
  resolve_cluster site cluster_type clusters = only (keep (is_target site cluster_type) clusters)

  -- The loop that prints the contexts: it reads the status of every machine that is not blocked.
  unfoldable pub check_statuses : {E : Type 0} → List Context → Result (ApplyError E) (Unit {0})
  unfolding desired_status
  check_statuses [] = ok tt
  check_statuses (c ∷ cs) =
      let rest = check_statuses cs in
      if is_blocked py c then rest else (desired_status py c.vm >>= λ status. rest)

  module _ {W E : Type 0} (api : Api W E) where
    -- Everything before the first write: the prerequisites, the duplicates among the discovered
    -- machines, a context for each, and that none is blocked. Returns the cluster too.
    unfoldable pub precheck :
        List Host → NetBoxTargetConfig → W → Result (ApplyError E) (ℕ × List Context)
    unfolding resolve_cluster preflight_all machine_identity check_statuses
    precheck hosts config w = do
      site ← resolved missing_site (api.site config.site_slug w)
      cluster_type ← resolved missing_cluster_type (api.cluster_type config.cluster_type_slug w)
      cluster ← resolve_cluster site cluster_type (api.clusters config.cluster_name w)
      require (not (has_duplicates (map (machine_identity py) (discovered hosts))))
          duplicate_identities
      require
          (not (
            has_duplicates
              (map (λ (vm : VirtualMachine). casefold vm.original_name) (discovered hosts))))
          duplicate_names
      contexts ←
          preflight_all py (api.all_machines w) (api.machines_in cluster.id w) cluster.id
            (sort_machines (discovered hosts))
      check_statuses contexts
      require (not (any (is_blocked py) contexts)) precheck_failed
      ok (cluster.id, contexts)

    abbrev pub written : Result E (Unit {0}) → Summary → Result (ApplyError E) Summary
    written (ok u) s = ok s
    written (err e) s = err (raised e)

    abbrev pub create_written :
        Result (ApplyError E) (List (String × Json))
        → Summary
        → W
        → Result (ApplyError E) Summary × W
    create_written (err e) s w = (err e, w)
    create_written (ok items) s w =
        let (r, w') = api.create items w in (written r (record s { created = s.created + 1 }), w')

    abbrev pub update_written :
        Machine → List (String × Json) → Summary → W → Result (ApplyError E) Summary × W
    update_written existing [] s w = (ok (record s { skipped = s.skipped + 1 }), w)
    update_written existing (c ∷ changes) s w =
        let (r, w') = api.update existing.id (c ∷ changes) w in
        (written r (record s { updated = s.updated + 1 }), w')

    -- The body of the second loop. No context is blocked here.
    unfoldable pub write_context : ℕ → Context → Summary → W → Result (ApplyError E) Summary × W
    unfolding create_fields
    write_context cluster c s w = elim c.action [
      | blocked reason candidates ↦ (ok s, w)
      | create desired ↦ create_written (create_fields py c.vm cluster desired) s w
      | matched existing changes ↦ update_written existing changes s w
    ]

    abbrev pub continue_with :
        Result (ApplyError E) Summary × W
        → (Summary → W → Result (ApplyError E) Summary × W)
        → Result (ApplyError E) Summary × W
    continue_with (ok s, w) next = next s w
    continue_with (err e, w) next = (err e, w)

    unfoldable pub write_all : ℕ → List Context → Summary → W → Result (ApplyError E) Summary × W
    unfolding write_context
    write_all cluster [] s w = (ok s, w)
    write_all cluster (c ∷ cs) s w =
        continue_with (write_context cluster c s w) (write_all cluster cs)

    -- `none` is the return without a write.
    abbrev pub confirmed_only :
        Bool
        → Result (ApplyError E) (ℕ × List Context)
        → W
        → Result (ApplyError E) (Option Summary) × W
    confirmed_only confirmed (err e) w = (err e, w)
    confirmed_only false (ok checked) w = (ok none, w)
    confirmed_only true (ok (cluster, contexts)) w =
        let (r, w') = write_all cluster contexts no_writes w in
        (elim r [ ok s ↦ ok (some s) | err e ↦ err e ], w')

    unfoldable pub apply_virtual_machines :
        List Host → NetBoxTargetConfig → Bool → W → Result (ApplyError E) (Option Summary) × W
    unfolding precheck write_all
    apply_virtual_machines hosts config confirmed w =
        confirmed_only confirmed (precheck hosts config w) w
