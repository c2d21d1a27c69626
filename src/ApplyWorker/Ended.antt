-- ===== src/ApplyWorker/Ended.antt =====
-- What the end of an apply leaves in the run history: `conclude` after the attempt.
use infra_sync.Prelude.{
  ℕ, String, ◌≡◌, refl, Bool, true, false, Option, none, some, arith, Result, ok, err, to_ℕ,
  Bool-cases, inl, inr,
}
use infra_sync.Json.{Fields}
use infra_sync.Confirmation.{ConfirmationClaims}
use infra_sync.RunHistory.{SyncRun, RunError, Table, Outcome, finish_run}
use infra_sync.RunHistory.Open.{open_count}
use infra_sync.Orchestrator as Orchestrator
use infra_sync.Orchestrator.{Outside, committed, is_refused, finish}
use infra_sync.Orchestrator.History.{Leaves, IsHead, committed-Leaves}
use infra_sync.ApplyWorker.{
  Problem, worker, unexpected, start_failed, unrecorded, Worker, is_counts,
}
use infra_sync.ApplyWorker.Attempt.{Attempt}
use infra_sync.ApplyWorker.Conclude.{
  Applied, counts_given, success_outcome, finish_success, succeed, recorded, raise_recorded,
  raised_by, or_handled, tried, handled, conclude, finished_as, late,
}

-- The exception is that of a history that could not record the end of the run.
abbrev pub is_unrecorded : Result Problem Applied → Bool
is_unrecorded (err (unrecorded e)) = true
is_unrecorded r = false

module _ {W S : Type 0} (by : Worker W S) where
  open by use {history}

  -- Where the end is recorded the run is closed, and else the table is as it was.
  abbrev IsFinished :
      Table → Orchestrator.State W → Result RunError SyncRun × Orchestrator.State W → Type 0
  IsFinished rest s (ok row, s') = Leaves 0 rest s'.table
  IsFinished rest s (err e, s') = s'.table ≡ s.table

  module _ (run : SyncRun) (rest : Table) where
    committed-IsFinished :
        (o : Outcome) (s : Orchestrator.State W) (finished : ℕ) (w : W) (connected : Bool)
        (r : Result RunError (SyncRun × Table))
        → IsHead history run s.table rest
        → finish_run run.run_id o finished s.table ≡ r
        → IsFinished rest s (committed history s connected r w)
    committed-IsFinished o s finished w false r h e = refl
    committed-IsFinished o s finished w true (err error) h e = refl
    committed-IsFinished o s finished w true (ok (done, after)) h e =
        committed-Leaves history run o s rest finished w true (ok (done, after)) h e

    finish-IsFinished :
        (o : Outcome) (s : Orchestrator.State W)
        → IsHead history run s.table rest
        → IsFinished rest s (finish history run.run_id o s)
    unfolding finish
    finish-IsFinished o s h = committed-IsFinished o s _ _ _ _ h refl

    stays : (table : Table) → IsHead history run table rest → Leaves 1 rest table
    unfolding open_count
    stays table h =
        rw h.table_eq (record { unique = (h.fresh, h.unique); more = ground (arith, h.running) })

    abbrev Ends : Result Problem Applied × Orchestrator.State W → Type 0
    Ends (r, s) = Leaves (to_ℕ (is_unrecorded r)) rest s.table

    raise_recorded-Ends :
        (code other : String) (claims : Option ConfirmationClaims) (s : Orchestrator.State W)
        → IsHead history run s.table rest
        → Ends (raised_by by (raise_recorded by (some run) code claims (worker other) s))
    raise_recorded-Ends code other claims s h =
        go (finish history run.run_id _ s) (finish-IsFinished _ s h)
      where
        go :
            (r : Result RunError SyncRun × Orchestrator.State W)
            → IsFinished rest s r
            → Ends (raised_by by (recorded (worker other) r.0, r.1))
        go (ok row, s') f = f
        go (err e, s') f = rw f (stays s.table h)

    -- What comes before the handlers: a success has closed the run, an exception has left it.
    abbrev IsTried : Orchestrator.State W → Result Problem Applied × Orchestrator.State W → Type 0
    IsTried s (ok applied, s') = Leaves 0 rest s'.table
    IsTried s (err e, s') = s'.table ≡ s.table

    handled-Ends :
        (a : Attempt) (e : Problem) (s : Orchestrator.State W)
        → IsHead history run s.table rest
        → Ends (raised_by by (handled by (some run) a e s))
    unfolding handled
    handled-Ends a (worker code) s h = raise_recorded-Ends _ code a.claims s h
    handled-Ends a unexpected s h = raise_recorded-Ends _ (late a.apply_started) a.claims s h
    handled-Ends a (start_failed e) s h = raise_recorded-Ends _ (late a.apply_started) a.claims s h
    handled-Ends a (unrecorded e) s h = raise_recorded-Ends _ (late a.apply_started) a.claims s h

    or_handled-Ends :
        (a : Attempt) (s : Orchestrator.State W) (r : Result Problem Applied × Orchestrator.State W)
        → IsHead history run s.table rest
        → IsTried s r
        → Ends (or_handled by (some run) a r)
    unfolding or_handled
    or_handled-Ends a s (ok applied, s') h t = t
    or_handled-Ends a s (err e, s') h t = handled-Ends a e s' (record {
      table_eq = rw t h.table_eq;
      running = h.running;
      fresh = h.fresh;
      unique = h.unique;
    })

    finish_success-IsTried :
        (fields : Fields) (o : Result Problem Outcome) (s : Orchestrator.State W)
        → IsHead history run s.table rest
        → IsTried s (finish_success by fields run.run_id o s)
    finish_success-IsTried fields (err e) s h = refl
    finish_success-IsTried fields (ok o) s h =
        go (finish history run.run_id o s) (finish-IsFinished o s h)
      where
        go :
            (r : Result RunError SyncRun × Orchestrator.State W)
            → IsFinished rest s r
            → IsTried s (finished_as fields run.run_id r.0, r.1)
        go (ok row, s') f = f
        go (err e, s') f = f

    succeed-IsTried :
        (fields : Fields) (s : Orchestrator.State W)
        → IsHead history run s.table rest
        → IsTried s (succeed by (some run) fields s)
    unfolding succeed
    succeed-IsTried fields s h = elim (Bool-cases (is_counts (counts_given fields))) [
      | inl fine ↦ rw fine (finish_success-IsTried fields (success_outcome fields) s h)
      | inr bad ↦ rw bad refl
    ]

    pub conclude-Ends :
        (a : Attempt) (s : Orchestrator.State W)
        → IsHead history run s.table rest
        → Ends (conclude by (some run) a s)
    unfolding conclude succeed
    conclude-Ends a s h = or_handled-Ends a s _ h (go a.outcome refl)
      where
        go : (r : Result Problem Fields) → a.outcome ≡ r → IsTried s (tried by (some run) a s)
        go (ok fields) e = rw e (succeed-IsTried fields s h)
        go (err p) e = rw e refl

  -- With no repository nothing is recorded.
  pub conclude-none :
      (a : Attempt) (s : Orchestrator.State W)
      → ((conclude by none a s).1.table ≡ s.table)
        × (is_unrecorded (conclude by none a s).0 ≡ false)
  unfolding conclude or_handled handled succeed
  conclude-none a s = go a.outcome refl
    where
      go :
          (r : Result Problem Fields)
          → a.outcome ≡ r
          → ((conclude by none a s).1.table ≡ s.table)
            × (is_unrecorded (conclude by none a s).0 ≡ false)
      go (err e) h = rw h (kept e)
        where
          kept :
              (e : Problem)
              → ((raised_by by (handled by none a e s)).1.table ≡ s.table)
                × (is_unrecorded (raised_by by (handled by none a e s)).0 ≡ false)
          kept (worker code) = (refl, refl)
          kept unexpected = (refl, refl)
          kept (start_failed e) = (refl, refl)
          kept (unrecorded e) = (refl, refl)
      go (ok fields) h = elim (Bool-cases (is_counts (counts_given fields))) [
        | inl fine ↦ rw (h, fine) (refl, refl)
        | inr bad ↦ rw (h, bad) (refl, refl)
      ]
