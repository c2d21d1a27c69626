-- ===== src/ApplyWorker/Kept.antt =====
-- The steps of an apply that keep what only an apply of a child can break.
use infra_sync.Prelude.{
  ℕ, String, ◌≡◌, refl, Bool, true, false, Option, none, some, List, arith, eq_iff, Result, ok, err,
  Result-cases, Bool-cases, inl, inr,
}
use infra_sync.Config.{SourceConfig}
use infra_sync.Confirmation.{ConfirmationClaims, Entry, find_entry, consume}
use infra_sync.Confirmation.Laws.{consume-eq-ok}
use infra_sync.ApplyWorker.{Problem, Secrets, resolved, unavailable, broken, Worker, ChildEnd}
use infra_sync.ApplyWorker.Attempt.{
  State, attempt, registered, source, run_child, ended, with_secrets, reloaded, locked, opened,
  unlike,
}

registered-eq-ok :
    (found : Option (ℕ × Option SourceConfig)) (config : SourceConfig)
    → registered found ≡ ok config
    → (found ≡ some (1, some config)) × (config.enabled ≡ true)
registered-eq-ok none config h = absurd (cc h)
registered-eq-ok (some (version, none)) config h = absurd (ground arith)
registered-eq-ok (some (version, some c)) config h = ground arith

module _ {W S : Type 0} (by : Worker W S) where
  open by use {sha256, registry, secrets, child, open_lock, lock, close_lock, clock, history}

  -- A property of the world that only a child can break, and that a child keeps which applies the
  -- digest of claims that were stored under the token for this source, where the lock file was
  -- opened and locked, the registry then returned a record of the source, which is enabled and has
  -- the id of the claims, and its secrets were resolved after that.
  pub record Guarded (P : W → Type 0) (instance_name token : String) (entries : List Entry)
      : Type 0 where
    pub reads : (w : W) → P w → P (registry instance_name w).1
    pub resolves : (config : SourceConfig) (w : W) → P w → P (secrets config w).1
    pub opens : (w : W) → P w → P (open_lock w).1
    pub locks : (w : W) → P w → P (lock w).1
    pub closes : (w : W) → P w → P (close_lock w)
    pub tells : (w : W) → P w → P (clock w).1
    pub stamps : (w : W) → P w → P (history.now w).1
    pub names : (w : W) → P w → P (history.new_uuid w).1
    pub connects : (w : W) → P w → P (history.connects w).1
    pub applies :
        (claims : ConfirmationClaims) (e : Entry) (config : SourceConfig) (s : S) (u v w : W)
        → find_entry (sha256 token) entries ≡ some e
        → e.claims ≡ claims
        → claims.source_instance ≡ instance_name
        → open_lock u ≡ (true, v)
        → (lock v).0 ≡ true
        → (registry instance_name (lock v).1).0 ≡ some (1, some config)
        → config.id ≡ claims.source_id
        → config.enabled ≡ true
        → secrets config (registry instance_name (lock v).1).1 ≡ (resolved s, w)
        → P w
        → P (child s config "apply" (some claims.plan_digest) w).1

  module _ (P : W → Type 0) (instance_name token : String) (entries : List Entry)
      (g : Guarded P instance_name token entries) where
    module _ (claims : ConfirmationClaims) (e : Entry)
        (found : find_entry (sha256 token) entries ≡ some e) (same : e.claims ≡ claims)
        (named : claims.source_instance ≡ instance_name) where
      module _ (u v : W) (opened : open_lock u ≡ (true, v)) (got : (lock v).0 ≡ true) where
        run_child-keeps :
            (config : SourceConfig)
            → (registry instance_name (lock v).1).0 ≡ some (1, some config)
            → config.id ≡ claims.source_id
            → config.enabled ≡ true
            → P (registry instance_name (lock v).1).1
            → P
                (run_child by config "apply"
                  (some claims.plan_digest)
                  (registry instance_name (lock v).1).1).1
        unfolding run_child
        run_child-keeps config read own enabled p =
            go (secrets config (registry instance_name (lock v).1).1) refl (g.resolves config _ p)
          where
            ended-keeps : (how : Option ChildEnd × W) → P how.1 → P (ended by "apply" how).1
            ended-keeps (none, w') q = q
            ended-keeps (some how, w') q = q

            go :
                (r : Secrets S × W)
                → secrets config (registry instance_name (lock v).1).1 ≡ r
                → P r.1
                → P (with_secrets by config "apply" (some claims.plan_digest) r).1
            go (unavailable, w') h q = q
            go (broken, w') h q = q
            go (resolved t, w') h q = ended-keeps _ (
                g.applies claims e config t u v w' found same named opened got read own enabled h q)

        reloaded-keeps :
            (r : Result Problem SourceConfig)
            → registered (registry instance_name (lock v).1).0 ≡ r
            → P (registry instance_name (lock v).1).1
            → P (reloaded by claims (r, (registry instance_name (lock v).1).1)).1
        unfolding run_child
        reloaded-keeps (err x) h p = p
        reloaded-keeps (ok config) h p = elim (Bool-cases (unlike claims config)) [
          | inl other ↦ rw other p
          | inr own ↦
              let (read, enabled) = registered-eq-ok _ config h in
              rw own (
                run_child-keeps config read (ground (arith, eq_iff config.id claims.source_id))
                  enabled p)
        ]

      locked-keeps :
          (u v : W) (got : Bool)
          → open_lock u ≡ (true, v)
          → (lock v).0 ≡ got
          → P (lock v).1
          → P (locked by instance_name claims (got, (lock v).1)).1
      unfolding source
      locked-keeps u v false opened h p = p
      locked-keeps u v true opened h p = reloaded-keeps u v opened h _ refl (g.reads _ p)

      opened-keeps :
          (u : W) (r : Bool × W) → open_lock u ≡ r → P r.1 → P (opened by instance_name claims r).1
      opened-keeps u (false, v) h p = p
      opened-keeps u (true, v) h p = g.closes _ (locked-keeps u v _ h refl (g.locks v p))

    pub attempt-keeps :
        (s : State W)
        → s.entries ≡ entries
        → P s.runs.world
        → P (attempt by instance_name token s).1.runs.world
    unfolding attempt
    attempt-keeps s stored p =
        elim (Result-cases
          (consume sha256 token instance_name (clock s.runs.world).0 s.entries).0) [
            | inl (claims, h) ↦
                let (e, found, same, fresh, named) =
                  consume-eq-ok sha256 token instance_name (clock s.runs.world).0 s.entries claims
                    h in
                rw h (
                  opened-keeps claims e (rw⁻¹ stored found) same named _ _ refl
                    (g.opens _ (g.tells _ p)))
            | inr (error, h) ↦ rw h (g.tells _ p)
          ]
