-- ===== src/Apply/Containers/Laws.antt =====
-- What `apply_lxc_containers` writes, and when it raises.
use mathlib.Core.Path.{subst}
use infra_sync.Prelude.{
  ℕ, ◌+◌, suc, String, ◌≡◌, ◌⊎◌, refl, Bool, true, false, Option, none, some, List, [], ◌∷◌, arith,
  Result, ok, err, >>=-eq-ok, inl, inr, All, length,
}
use infra_sync.Json.{Json}
use infra_sync.Discovery.{Host}
use infra_sync.Config.{NetBoxTargetConfig}
use infra_sync.Apply.NetBox.{Machine, Python, Api}
use infra_sync.Apply.Machines.{Summary, no_writes}
use infra_sync.Apply.Containers.{LxcApplyError, raised, LxcContext, create_items}
use infra_sync.Apply.Containers.Justified.{IsJustified, IsJustifiedFor, preflight_containers_lem}
use infra_sync.Apply.Containers.Writes.{
  all_containers, known_site, site_cluster, lxc_precheck, written, write_known, write_lxc, and_then,
  write_containers, summarized, if_confirmed, apply_lxc_containers,
}

abbrev pub total : Summary → ℕ
total s = s.created + s.updated + s.skipped

module _ (py : Python) {W E : Type 0} (api : Api W E) where
  -- What a part of the writing does to the count if it returns, and how it fails.
  abbrev Counts : Summary → ℕ → Result (LxcApplyError E) Summary → Type 0
  Counts s n (ok s') = total s' ≡ total s + n
  Counts s n (err e) = (x : E) × (e ≡ raised x)

  created-Counts :
      (s : Summary) (r : Result E Unit)
      → Counts s 1 (written py api r (record s { created = s.created + 1 }))
  created-Counts s (ok u) = omega arith
  created-Counts s (err e) = (e, refl)

  updated-Counts :
      (s : Summary) (r : Result E Unit)
      → Counts s 1 (written py api r (record s { updated = s.updated + 1 }))
  updated-Counts s (ok u) = omega arith
  updated-Counts s (err e) = (e, refl)

  write_known-Counts :
      (existing : Machine) (changes : List (String × Json)) (s : Summary) (w : W)
      → Counts s 1 (write_known py api existing changes s w).0
  write_known-Counts existing [] s w = omega arith
  write_known-Counts existing (c ∷ changes) s w =
      updated-Counts s (api.update existing.id (c ∷ changes) w).0

  write_lxc-Counts : (c : LxcContext) (s : Summary) (w : W) → Counts s 1 (write_lxc py api c s w).0
  unfolding write_lxc
  write_lxc-Counts c s w = at c.existing refl
    where
      at :
          (existing : Option Machine)
          → c.existing ≡ existing
          → Counts s 1 (write_lxc py api c s w).0
      at none e = rw e (created-Counts s (api.create (create_items c.desired) w).0)
      at (some m) e = rw e (write_known-Counts m c.changes s w)

  add-Counts :
      (n : ℕ) (s s' : Summary) (r : Result (LxcApplyError E) Summary)
      → total s' ≡ total s + 1
      → Counts s' n r
      → Counts s (suc n) r
  add-Counts n s s' (ok s'') one more = omega (arith, one, more)
  add-Counts n s s' (err e) one more = more

  and_then-Counts :
      (n : ℕ) (s : Summary) (r : Result (LxcApplyError E) Summary × W)
      (next : Summary → W → Result (LxcApplyError E) Summary × W)
      → Counts s 1 r.0
      → ((s' : Summary) (w' : W) → Counts s' n (next s' w').0)
      → Counts s (suc n) (and_then py api r next).0
  and_then-Counts n s (ok s', w') next one more = add-Counts n s s' (next s' w').0 one (more s' w')
  and_then-Counts n s (err e, w') next one more = one

  write_containers-Counts :
      (cs : List LxcContext) (s : Summary) (w : W)
      → Counts s (length cs) (write_containers py api cs s w).0
  unfolding write_containers
  write_containers-Counts [] s w = omega arith
  write_containers-Counts (c ∷ cs) s w =
      and_then-Counts (length cs) s (write_lxc py api c s w) (write_containers py api cs)
        (write_lxc-Counts c s w) (λ s' w'. write_containers-Counts cs s' w')

  -- A property that a write with a good reason, drawn from what stood in NetBox at the start, keeps.
  pub record Guarded (P : W → Type 0) (start : W) : Type 0 where
    pub creates :
        (cluster : ℕ) (c : LxcContext) (w : W)
        → IsJustifiedFor py (api.all_machines start) cluster c.container none
        → P w
        → P (api.create (create_items c.desired) w).1
    pub updates :
        (cluster : ℕ) (c : LxcContext) (existing : Machine) (w : W)
        → IsJustifiedFor py (api.all_machines start) cluster c.container (some existing)
        → P w
        → P (api.update existing.id c.changes w).1

  and_then-keeps :
      {P : W → Type 0} (r : Result (LxcApplyError E) Summary × W)
      (next : Summary → W → Result (LxcApplyError E) Summary × W)
      → P r.1
      → ((s : Summary) (w : W) → P w → P (next s w).1)
      → P (and_then py api r next).1
  and_then-keeps (ok s, w) next p keeps = keeps s w p
  and_then-keeps (err e, w) next p keeps = p

  module _ (P : W → Type 0) (start : W) (g : Guarded P start) (cluster : ℕ) where
    write_lxc-keeps :
        (c : LxcContext) (s : Summary) (w : W)
        → IsJustified py (api.all_machines start) cluster c
        → P w
        → P (write_lxc py api c s w).1
    unfolding write_lxc
    write_lxc-keeps c s w j p = at c.existing c.changes refl refl
      where
        at :
            (existing : Option Machine) (changes : List (String × Json))
            → c.existing ≡ existing
            → c.changes ≡ changes
            → P (write_lxc py api c s w).1
        at none changes e f = rw e (g.creates cluster c w (rw e at j) p)
        at (some m) [] e f = rw (e, f) p
        at (some m) (x ∷ changes) e f =
            rw (e, f)
              (subst (λ items. P (api.update m.id items w).1) f
                (g.updates cluster c m w (rw e at j) p))

    write_containers-keeps :
        (cs : List LxcContext) (s : Summary) (w : W)
        → All (IsJustified py (api.all_machines start) cluster) cs
        → P w
        → P (write_containers py api cs s w).1
    unfolding write_containers
    write_containers-keeps [] s w j p = p
    write_containers-keeps (c ∷ cs) s w j p =
        and_then-keeps (write_lxc py api c s w) (write_containers py api cs)
          (write_lxc-keeps c s w j.0 p) (λ s' w'. write_containers-keeps cs s' w' j.1)

  module _ (hosts : List Host) (config : NetBoxTargetConfig) where
    -- A precheck that returns has a context for each container, and a reason for each.
    lxc_precheck_lem :
        (w : W) (cs : List LxcContext)
        → lxc_precheck py api hosts config w ≡ ok cs
        → (cluster : ℕ) × All (IsJustified py (api.all_machines w) cluster) cs
          × (length cs ≡ length (all_containers hosts))
    unfolding lxc_precheck
    lxc_precheck_lem w cs h =
        let (site, _, h1) = >>=-eq-ok (known_site py (api.site config.site_slug w)) _ h in
        let (cluster, _, h2) =
          >>=-eq-ok (site_cluster py site (api.clusters config.cluster_name w)) _ h1 in
        let (reasons, count) =
          preflight_containers_lem py (api.all_machines w) cluster.id [] (all_containers hosts) cs
            h2 in
        (cluster.id, reasons, count)

    -- A dry run changes nothing, whatever the checks find.
    pub apply_lxc_containers-unconfirmed :
        (w : W) → (apply_lxc_containers py api hosts config false w).1 ≡ w
    unfolding apply_lxc_containers
    apply_lxc_containers-unconfirmed w = unwritten (lxc_precheck py api hosts config w)
      where
        unwritten :
            (r : Result (LxcApplyError E) (List LxcContext)) → (if_confirmed py api false r w).1 ≡ w
        unwritten (ok contexts) = refl
        unwritten (err e) = refl

    -- A container is created only if no object of NetBox has its identity and none of the cluster
    -- its name, and updated only if just one object has its identity, which is in the cluster: a
    -- property that such writes keep is kept by every call, confirmed or not, however it ends.
    pub apply_lxc_containers-Guarded :
        (P : W → Type 0) (confirmed : Bool) (w : W)
        → Guarded P w
        → P w
        → P (apply_lxc_containers py api hosts config confirmed w).1
    unfolding apply_lxc_containers
    apply_lxc_containers-Guarded P confirmed w g p =
        go confirmed (lxc_precheck py api hosts config w) refl
      where
        unsummarized :
            (r : Result (LxcApplyError E) Summary × W) → P r.1 → P (summarized py api r).1
        unsummarized (ok s, w') p' = p'
        unsummarized (err e, w') p' = p'

        go :
            (confirmed : Bool) (r : Result (LxcApplyError E) (List LxcContext))
            → lxc_precheck py api hosts config w ≡ r
            → P (if_confirmed py api confirmed r w).1
        go confirmed (err e) h = p
        go false (ok cs) h = p
        go true (ok cs) h =
            let (cluster, reasons, count) = lxc_precheck_lem w cs h in
            unsummarized (write_containers py api cs no_writes w)
              (write_containers-keeps P w g cluster cs no_writes w reasons p)

    -- How a call ends.
    abbrev pub IsEnded : W → Result (LxcApplyError E) (Option Summary) × W → Type 0
    IsEnded w (ok none, w') = w' ≡ w
    IsEnded w (ok (some s), w') = total s ≡ length (all_containers hosts)
    IsEnded w (err e, w') = (w' ≡ w) ⊎ ((x : E) × (e ≡ raised x))

    -- A call that returns without a summary has written nothing, a summary counts every discovered
    -- container once, and an exception leaves NetBox as it was unless it is one that NetBox raised.
    pub apply_lxc_containers-IsEnded :
        (confirmed : Bool) (w : W)
        → IsEnded w (apply_lxc_containers py api hosts config confirmed w)
    unfolding apply_lxc_containers
    apply_lxc_containers-IsEnded confirmed w =
        go confirmed (lxc_precheck py api hosts config w) refl
      where
        wrote :
            (n : ℕ)
            → n ≡ length (all_containers hosts)
            → (r : Result (LxcApplyError E) Summary × W) → Counts no_writes n r.0
            → IsEnded w (summarized py api r)
        wrote n e (ok s, w') counts = omega (arith, e, counts)
        wrote n e (err x, w') counts = inr counts

        go :
            (confirmed : Bool) (r : Result (LxcApplyError E) (List LxcContext))
            → lxc_precheck py api hosts config w ≡ r
            → IsEnded w (if_confirmed py api confirmed r w)
        go confirmed (err e) h = inl refl
        go false (ok cs) h = refl
        go true (ok cs) h =
            let (cluster, reasons, count) = lxc_precheck_lem w cs h in
            wrote (length cs) count (write_containers py api cs no_writes w)
              (write_containers-Counts cs no_writes w)
