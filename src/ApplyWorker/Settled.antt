-- ===== src/ApplyWorker/Settled.antt =====
-- The end of an apply keeps what only an apply of a child can break.
use infra_sync.Prelude.{
  ℕ, ◌||◌, if◌then◌else◌, String, ◌≡◌, refl, Bool, true, false, Option, none, some, List, Result,
  ok, err, Bool-cases, inl, inr,
}
use infra_sync.Json.{Fields}
use infra_sync.Confirmation.{ConfirmationClaims, Entry}
use infra_sync.RunHistory.{SyncRun, RunError, Table, Outcome, finish_run}
use infra_sync.Orchestrator as Orchestrator
use infra_sync.Orchestrator.{Outside, committed, finish, transacted, is_refused}
use infra_sync.ApplyWorker.{
  Problem, worker, unexpected, start_failed, unrecorded, Worker, is_counts,
}
use infra_sync.ApplyWorker.Attempt.{Attempt}
use infra_sync.ApplyWorker.Conclude.{
  Applied, counts_given, success_outcome, finish_success, succeed, raise_recorded, or_handled,
  tried, handled, conclude, failure_record,
}
use infra_sync.ApplyWorker.Kept.{Guarded}

module _ {W S : Type 0} (by : Worker W S) where
  open by use {history}

  module _ (P : W → Type 0) (instance_name token : String) (entries : List Entry)
      (g : Guarded by P instance_name token entries) where
    committed-keeps :
        {A : Type 0} (s : Orchestrator.State W) (connected : Bool) (r : Result RunError (A × Table))
        (w : W)
        → P w
        → P (committed history s connected r w).1.world
    committed-keeps s false r w p = p
    committed-keeps s true (err e) w p = p
    committed-keeps s true (ok a) w p = p

    pub transacted-keeps :
        {A : Type 0} (s : Orchestrator.State W) (before : W) (r : Result RunError (A × Table))
        (c : Bool × W)
        → P before
        → P c.1
        → P (transacted history s before r c).1.world
    transacted-keeps s before r (connected, after) p q =
        committed-keeps s (is_refused history r || connected) r
          (if is_refused history r then before else after) (go (is_refused history r))
      where
        go : (b : Bool) → P (if b then before else after)
        go true = p
        go false = q

    finish-keeps :
        (identifier : ℕ) (o : Outcome) (s : Orchestrator.State W)
        → P s.world
        → P (finish history identifier o s).1.world
    unfolding finish
    finish-keeps identifier o s p =
        transacted-keeps s _ (finish_run identifier o (history.now s.world).0 s.table)
          (history.connects (history.now s.world).1) (g.stamps _ p) (g.connects _ (g.stamps _ p))

    raise_recorded-keeps :
        (run : Option SyncRun) (code : String) (claims : Option ConfirmationClaims) (e : Problem)
        (s : Orchestrator.State W)
        → P s.world
        → P (raise_recorded by run code claims e s).1.world
    raise_recorded-keeps none code claims e s p = p
    raise_recorded-keeps (some run) code claims e s p =
        finish-keeps run.run_id (failure_record code claims) s p

    handled-keeps :
        (run : Option SyncRun) (a : Attempt) (e : Problem) (s : Orchestrator.State W)
        → P s.world
        → P (handled by run a e s).1.world
    unfolding handled
    handled-keeps run a (worker code) s p = raise_recorded-keeps run _ a.claims _ s p
    handled-keeps run a unexpected s p = raise_recorded-keeps run _ a.claims _ s p
    handled-keeps run a (start_failed e) s p = raise_recorded-keeps run _ a.claims _ s p
    handled-keeps run a (unrecorded e) s p = raise_recorded-keeps run _ a.claims _ s p

    or_handled-keeps :
        (run : Option SyncRun) (a : Attempt) (r : Result Problem Applied × Orchestrator.State W)
        → P r.1.world
        → P (or_handled by run a r).1.world
    unfolding or_handled
    or_handled-keeps run a (ok applied, s) p = p
    or_handled-keeps run a (err e, s) p = handled-keeps run a e s p

    finish_success-keeps :
        (fields : Fields) (identifier : ℕ) (o : Result Problem Outcome) (s : Orchestrator.State W)
        → P s.world
        → P (finish_success by fields identifier o s).1.world
    finish_success-keeps fields identifier (err e) s p = g.stamps _ p
    finish_success-keeps fields identifier (ok o) s p = finish-keeps identifier o s p

    succeed-keeps :
        (run : Option SyncRun) (fields : Fields) (s : Orchestrator.State W)
        → P s.world
        → P (succeed by run fields s).1.world
    unfolding succeed
    succeed-keeps run fields s p = elim (Bool-cases (is_counts (counts_given fields))) [
      | inl fine ↦ go run fine
      | inr bad ↦ rw bad p
    ]
      where
        go :
            (run : Option SyncRun)
            → is_counts (counts_given fields) ≡ true
            → P (succeed by run fields s).1.world
        go none fine = rw fine p
        go (some row) fine =
            rw fine (finish_success-keeps fields row.run_id (success_outcome fields) s p)

    pub conclude-keeps :
        (run : Option SyncRun) (a : Attempt) (s : Orchestrator.State W)
        → P s.world
        → P (conclude by run a s).1.world
    unfolding conclude succeed
    conclude-keeps run a s p = or_handled-keeps run a _ (go a.outcome refl)
      where
        go : (r : Result Problem Fields) → a.outcome ≡ r → P (tried by run a s).1.world
        go (ok fields) e = rw e (succeed-keeps run fields s p)
        go (err x) e = rw e p
