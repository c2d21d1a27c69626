-- ===== src/ManualSync/Laws.antt =====
-- What a confirmed manual synchronization may execute.
use infra_sync.Prelude.{
  ℕ, String, ◌≡◌, refl, Bool, true, false, Option, none, some, List, arith, eq_iff, Result, ok, err,
  text_length, inl, inr, Result-cases,
}
use infra_sync.Config.{SourceConfig}
use infra_sync.Confirmation.{
  ConfirmationClaims, ConfirmationError, invalid, Entry, is_ascii, find_entry, consume,
}
use infra_sync.Confirmation.Laws.{consume-eq-ok, consume-consume}
use infra_sync.ManualSync.{
  Plan, ManualSyncError, confirmation, Service, State, enabled_source, is_confirmed, apply, checked,
  consumed, reloaded, replanned,
}

module _ {W : Type 0} (service : Service W) (ttl maximum : ℕ) where
  open service use {sha256, now, load, build_plan, execute}

  -- None of the later steps touches the store of confirmations.
  entries-replanned :
      (claims : ConfirmationClaims) (source : SourceConfig) (r : Result ManualSyncError Plan)
      (s : State W)
      → (replanned service ttl maximum claims source r s).1.entries ≡ s.entries
  entries-replanned claims source (err e) s = refl
  entries-replanned claims source (ok plan) s = ground arith

  entries-reloaded :
      (claims : ConfirmationClaims) (r : Result ManualSyncError SourceConfig) (s : State W)
      → (reloaded service ttl maximum claims r s).1.entries ≡ s.entries
  entries-reloaded claims (err e) s = refl
  entries-reloaded claims (ok source) s =
      entries-replanned claims source _ (record s { world = (build_plan source s.world).1 })

  entries-consumed :
      (source_instance : String) (r : Result ConfirmationError ConfirmationClaims) (s : State W)
      → (consumed service ttl maximum source_instance r s).1.entries ≡ s.entries
  entries-consumed source_instance (err e) s = refl
  entries-consumed source_instance (ok claims) s =
      entries-reloaded claims _
        (record s { world = (enabled_source service ttl maximum source_instance s.world).1 })

  -- The plan is allowed and of this source, and it is the one of the claims in every respect.
  pub record Confirms (claims : ConfirmationClaims) (source : SourceConfig) (plan : Plan)
      : Type 0 where
    pub allowed : plan.apply_allowed ≡ true
    pub source_id : source.id ≡ claims.source_id
    pub digest : plan.digest ≡ claims.plan_digest
    pub planner_version : plan.planner_version ≡ claims.planner_version
    pub source_fingerprint : plan.source_fingerprint ≡ claims.source_fingerprint
    pub target_fingerprint : plan.target_fingerprint ≡ claims.target_fingerprint

  is_confirmed-Confirms :
      (claims : ConfirmationClaims) (source : SourceConfig) (plan : Plan)
      → is_confirmed service ttl maximum claims source plan ≡ true
      → Confirms claims source plan
  unfolding is_confirmed
  is_confirmed-Confirms claims source plan h = record {
    allowed = ground arith;
    source_id = ground (arith, eq_iff source.id claims.source_id);
    digest = ground (arith, eq_iff plan.digest claims.plan_digest);
    planner_version = ground (arith, eq_iff plan.planner_version claims.planner_version);
    source_fingerprint = ground (arith, eq_iff plan.source_fingerprint claims.source_fingerprint);
    target_fingerprint = ground (arith, eq_iff plan.target_fingerprint claims.target_fingerprint);
  }

  checked-eq-ok :
      (r : Result ManualSyncError (Option SourceConfig)) (source : SourceConfig)
      → checked service ttl maximum r ≡ ok source
      → (r ≡ ok (some source)) × (source.enabled ≡ true)
  checked-eq-ok (err e) source h = absurd (cc h)
  checked-eq-ok (ok none) source h = absurd (cc h)
  checked-eq-ok (ok (some c)) source h = ground arith

  -- A property of the world that only an execution can break, and that each execution keeps of a
  -- source that was loaded enabled and of the plan that was then built of it, where claims that are
  -- stored under the token for the source confirm the plan.
  pub record Guarded (P : W → Type 0) (source_instance token : String) (entries : List Entry)
      : Type 0 where
    pub clock : (w : W) → P w → P (now w).1
    pub loader : (w : W) → P w → P (load source_instance w).1
    pub planner : (source : SourceConfig) (w : W) → P w → P (build_plan source w).1
    pub executor :
        (claims : ConfirmationClaims) (source : SourceConfig) (plan : Plan) (e : Entry) (u w : W)
        → find_entry (sha256 token) entries ≡ some e
        → e.claims ≡ claims
        → claims.source_instance ≡ source_instance
        → (load source_instance u).0 ≡ ok (some source)
        → source.enabled ≡ true
        → build_plan source (load source_instance u).1 ≡ (ok plan, w)
        → Confirms claims source plan
        → P w
        → P (execute source plan w).1

  module _ (P : W → Type 0) (source_instance token : String) (entries : List Entry)
      (g : Guarded P source_instance token entries) where
    module _ (claims : ConfirmationClaims) (e : Entry)
        (found : find_entry (sha256 token) entries ≡ some e) (same : e.claims ≡ claims)
        (named : claims.source_instance ≡ source_instance) where
      module _ (u : W) (source : SourceConfig)
          (loaded : (load source_instance u).0 ≡ ok (some source))
          (enabled : source.enabled ≡ true) where
        decided-keeps :
            (plan : Plan) (s : State W) (b : Bool)
            → build_plan source (load source_instance u).1 ≡ (ok plan, s.world)
            → is_confirmed service ttl maximum claims source plan ≡ b
            → P s.world
            → P (replanned service ttl maximum claims source (ok plan) s).1.world
        decided-keeps plan s true built h p = rw h (
            g.executor claims source plan e u s.world found same named loaded enabled built
              (is_confirmed-Confirms claims source plan h) p)
        decided-keeps plan s false built h p = rw h p

        replanned-keeps :
            (r : Result ManualSyncError Plan) (s : State W)
            → build_plan source (load source_instance u).1 ≡ (r, s.world)
            → P s.world
            → P (replanned service ttl maximum claims source r s).1.world
        replanned-keeps (err x) s built p = p
        replanned-keeps (ok plan) s built p = decided-keeps plan s _ built refl p

      reloaded-keeps :
          (u : W) (r : Result ManualSyncError SourceConfig) (entries' : List Entry)
          → checked service ttl maximum (load source_instance u).0 ≡ r
          → P (load source_instance u).1
          → P
              (reloaded service ttl maximum claims r
                (record { entries = entries'; world = (load source_instance u).1 })).1.world
      reloaded-keeps u (err x) entries' h p = p
      reloaded-keeps u (ok source) entries' h p =
          let (loaded, enabled) = checked-eq-ok _ source h in
          replanned-keeps u source loaded enabled _ _ refl (g.planner source _ p)

  -- The executor is reached only with a source that was loaded enabled and with the plan that was
  -- then built of it, which is allowed and has the digest, the planner version, the fingerprints
  -- and the source id of claims that were stored under the token for this source: a property of the
  -- world that the clock, the loader and the planner keep, and that such executions keep, is kept
  -- by every call of `apply`, whatever is loaded and planned meanwhile.
  pub apply-Guarded :
      (P : W → Type 0) (source_instance token : String) (s : State W)
      → Guarded P source_instance token s.entries
      → P s.world
      → P (apply service ttl maximum source_instance token s).1.world
  unfolding apply
  apply-Guarded P source_instance token s g p =
      elim (Result-cases (consume sha256 token source_instance (now s.world).0 s.entries).0) [
        | inl (claims, h) ↦
            let (e, found, same, fresh, named) =
              consume-eq-ok sha256 token source_instance (now s.world).0 s.entries claims h in
            rw h (
              unfold enabled_source in
              reloaded-keeps P source_instance token s.entries g claims e found same named
                (now s.world).1 _ _ refl (g.loader (now s.world).1 (g.clock s.world p)))
        | inr (error, h) ↦ rw h (g.clock s.world p)
      ]

  entries-apply :
      (source_instance token : String) (s : State W)
      → (apply service ttl maximum source_instance token s).1.entries
        ≡ (consume sha256 token source_instance (now s.world).0 s.entries).1
  unfolding apply
  entries-apply source_instance token s =
      let (r, entries) = consume sha256 token source_instance (now s.world).0 s.entries in
      entries-consumed source_instance r (record { entries = entries; world = (now s.world).1 })

  -- A token of 64 ASCII characters is good for one attempt: after any call of `apply` with it,
  -- whatever it returned, a second call is refused as invalid, for any source.
  pub apply-apply :
      (token first second : String) (s : State W)
      → text_length token ≡ 64
      → is_ascii token ≡ true
      → (apply service ttl maximum second token (apply service ttl maximum first token s).1).0
        ≡ err (confirmation invalid)
  unfolding apply
  apply-apply token first second s l a =
      rw (entries-apply first token s)
        (rw (consume-consume sha256 token first second _ _ s.entries l a) refl)

  replanned-eq-ok :
      (claims : ConfirmationClaims) (source : SourceConfig) (r : Result ManualSyncError Plan)
      (s : State W) (digest : String)
      → (replanned service ttl maximum claims source r s).0 ≡ ok digest
      → claims.plan_digest ≡ digest
  unfolding is_confirmed
  replanned-eq-ok claims source (err e) s digest h = cc
  replanned-eq-ok claims source (ok plan) s digest h =
      ground (arith, eq_iff plan.digest claims.plan_digest)

  reloaded-eq-ok :
      (claims : ConfirmationClaims) (r : Result ManualSyncError SourceConfig) (s : State W)
      (digest : String)
      → (reloaded service ttl maximum claims r s).0 ≡ ok digest
      → claims.plan_digest ≡ digest
  reloaded-eq-ok claims (err e) s digest h = cc
  reloaded-eq-ok claims (ok source) s digest h =
      replanned-eq-ok claims source _ (record s { world = (build_plan source s.world).1 }) digest h

  -- A successful `apply` returns the digest that was confirmed for this source.
  pub apply-eq-ok :
      (source_instance token digest : String) (s : State W)
      → (apply service ttl maximum source_instance token s).0 ≡ ok digest
      → (e : Entry) × (find_entry (sha256 token) s.entries ≡ some e)
        × (e.claims.source_instance ≡ source_instance)
        × (e.claims.plan_digest ≡ digest)
  unfolding apply
  apply-eq-ok source_instance token digest s h =
      let (r, entries) = consume sha256 token source_instance (now s.world).0 s.entries in
      elim (Result-cases r) [
        | inl (claims, e) ↦
            let (entry, found, same, fresh, named) =
              consume-eq-ok sha256 token source_instance (now s.world).0 s.entries claims e in
            let w = (now s.world).1 in
            let (loaded, w') = enabled_source service ttl maximum source_instance w in
            let applied =
              reloaded-eq-ok claims loaded (record { entries = entries; world = w' }) digest
                (rw e at h) in
            (entry, found, cc, cc)
        | inr (error, e) ↦ absurd (cc (rw e at h))
      ]
