-- ===== src/Apply/Containers/Writes.antt =====
-- `apply_lxc_containers`: every check, and then the writes.
use infra_sync.Prelude.{
  ℕ, ◌+◌, String, Bool, true, false, ◌&&◌, Option, none, some, List, [], ◌∷◌, ◌++◌, Result, ok, err,
  ◌>>=◌, keep,
}
use infra_sync.Json.{Json, num, str, get, or_null}
use infra_sync.Discovery.{Container, Host}
use infra_sync.Config.{NetBoxTargetConfig}
use infra_sync.Apply.NetBox.{Machine, Cluster, Python, Api}
use infra_sync.Apply.Machines.{Summary, no_writes}
use infra_sync.Apply.Containers.{
  LxcApplyError, missing_site, ambiguous_cluster, raised, LxcContext, create_items,
  preflight_containers,
}

abbrev pub all_containers : List Host → List Container
all_containers [] = []
all_containers (h ∷ hs) = h.containers ++ all_containers hs

module _ (py : Python) where
  open py use {same}

  abbrev is_scoped : ℕ → Cluster → Bool
  is_scoped site c =
      same (or_null (get "scope_type" c.serialized)) (str "dcim.site")
      && same (or_null (get "scope_id" c.serialized)) (num site)

  abbrev pub known_site : {E : Type 0} → Option ℕ → Result (LxcApplyError E) ℕ
  known_site none = err missing_site
  known_site (some site) = ok site

  abbrev only_cluster : {E : Type 0} → List Cluster → Result (LxcApplyError E) Cluster
  only_cluster [] = err ambiguous_cluster
  only_cluster (c ∷ []) = ok c
  only_cluster (c ∷ d ∷ cs) = err ambiguous_cluster

  abbrev pub site_cluster : {E : Type 0} → ℕ → List Cluster → Result (LxcApplyError E) Cluster
  site_cluster site clusters = only_cluster (keep (is_scoped site) clusters)

  module _ {W E : Type 0} (api : Api W E) where
    -- Everything before the first write.
    unfoldable pub lxc_precheck :
        List Host → NetBoxTargetConfig → W → Result (LxcApplyError E) (List LxcContext)
    unfolding preflight_containers
    lxc_precheck hosts config w = do
      site ← known_site (api.site config.site_slug w)
      cluster ← site_cluster site (api.clusters config.cluster_name w)
      preflight_containers py (api.all_machines w) cluster.id [] (all_containers hosts)

    abbrev pub written : Result E (Unit {0}) → Summary → Result (LxcApplyError E) Summary
    written (ok u) s = ok s
    written (err e) s = err (raised e)

    abbrev pub write_known :
        Machine → List (String × Json) → Summary → W → Result (LxcApplyError E) Summary × W
    write_known existing [] s w = (ok (record s { skipped = s.skipped + 1 }), w)
    write_known existing (c ∷ changes) s w =
        let (r, w') = api.update existing.id (c ∷ changes) w in
        (written r (record s { updated = s.updated + 1 }), w')

    -- The body of the second loop.
    unfoldable pub write_lxc : LxcContext → Summary → W → Result (LxcApplyError E) Summary × W
    write_lxc c s w = elim c.existing [
      | none ↦
          let (r, w') = api.create (create_items c.desired) w in
          (written r (record s { created = s.created + 1 }), w')
      | some existing ↦ write_known existing c.changes s w
    ]

    abbrev pub and_then :
        Result (LxcApplyError E) Summary × W
        → (Summary → W → Result (LxcApplyError E) Summary × W)
        → Result (LxcApplyError E) Summary × W
    and_then (ok s, w) next = next s w
    and_then (err e, w) next = (err e, w)

    unfoldable pub write_containers :
        List LxcContext → Summary → W → Result (LxcApplyError E) Summary × W
    unfolding write_lxc
    write_containers [] s w = (ok s, w)
    write_containers (c ∷ cs) s w = and_then (write_lxc c s w) (write_containers cs)

    abbrev pub summarized :
        Result (LxcApplyError E) Summary × W → Result (LxcApplyError E) (Option Summary) × W
    summarized (ok s, w) = (ok (some s), w)
    summarized (err e, w) = (err e, w)

    -- `none` is the return without a write.
    abbrev pub if_confirmed :
        Bool
        → Result (LxcApplyError E) (List LxcContext)
        → W
        → Result (LxcApplyError E) (Option Summary) × W
    if_confirmed confirmed (err e) w = (err e, w)
    if_confirmed false (ok contexts) w = (ok none, w)
    if_confirmed true (ok contexts) w = summarized (write_containers contexts no_writes w)

    unfoldable pub apply_lxc_containers :
        List Host → NetBoxTargetConfig → Bool → W → Result (LxcApplyError E) (Option Summary) × W
    unfolding lxc_precheck write_containers
    apply_lxc_containers hosts config confirmed w =
        if_confirmed confirmed (lxc_precheck hosts config w) w
