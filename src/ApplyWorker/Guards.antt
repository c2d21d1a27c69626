-- ===== src/ApplyWorker/Guards.antt =====
-- When the supervisor starts a child that may write.
use infra_sync.Prelude.{
  String, ◌≡◌, refl, Bool, true, false, Option, none, some, List, Result, ok, err,
}
use infra_sync.Config.{SourceConfig}
use infra_sync.Confirmation.{Entry}
use infra_sync.RunHistory.{SyncRun, RunError, manual, start_run}
use infra_sync.Orchestrator as Orchestrator
use infra_sync.Orchestrator.{Outside, committed, finish, transacted, is_refused}
use infra_sync.ApplyWorker.{Problem, Worker}
use infra_sync.ApplyWorker.Attempt.{State, source}
use infra_sync.ApplyWorker.Supervisor.{start_manual, apply_run, after_start, for_source, apply}
use infra_sync.ApplyWorker.Kept.{Guarded, attempt-keeps}
use infra_sync.ApplyWorker.Settled.{transacted-keeps, conclude-keeps}

module _ {W S : Type 0} (by : Worker W S) where
  open by use {registry, history}

  module _ (P : W → Type 0) (instance_name token : String) (entries : List Entry)
      (g : Guarded by P instance_name token entries) where
    apply_run-keeps :
        (run : Option SyncRun) (s : State W)
        → s.entries ≡ entries
        → P s.runs.world
        → P (apply_run by instance_name token run s).1.runs.world
    unfolding apply_run
    apply_run-keeps run s stored p =
        conclude-keeps by P instance_name token entries g run _ _
          (attempt-keeps by P instance_name token entries g s stored p)

    after_start-keeps :
        (r : Result RunError SyncRun × Orchestrator.State W)
        → P r.1.world
        → P (after_start by instance_name token entries r).1.runs.world
    unfolding apply_run
    after_start-keeps (err e, s) p = p
    after_start-keeps (ok run, s) p =
        apply_run-keeps (some run) (record { runs = s; entries = entries }) refl p

    start_manual-keeps :
        (config : SourceConfig) (s : Orchestrator.State W)
        → P s.world
        → P (start_manual by instance_name config s).1.world
    unfolding start_manual
    start_manual-keeps config s p =
        let (identifier, w) = history.new_uuid s.world in
        let (started, w') = history.now w in
        transacted-keeps by P instance_name token entries g s s.world
          (start_run instance_name config.source_type manual "web/manual" none none identifier
            started s.table)
          (history.connects w') p (g.connects _ (g.stamps _ (g.names _ p)))

    for_source-keeps :
        (with_history : Bool) (r : Result Problem SourceConfig) (s : State W)
        → s.entries ≡ entries
        → P s.runs.world
        → P (for_source by with_history instance_name token r s).1.runs.world
    unfolding start_manual apply_run
    for_source-keeps with_history (err e) s stored p = p
    for_source-keeps true (ok config) s stored p =
        rw stored (after_start-keeps _ (start_manual-keeps config s.runs p))
    for_source-keeps false (ok config) s stored p = apply_run-keeps none s stored p

  -- A child that may write is started only with the digest of claims that were stored under the
  -- token for this source, after the lock file was opened and locked, after the registry was then
  -- read and returned a record of the source that is enabled and has the id of the claims, and with
  -- the secrets that were resolved for that record after that: a property of the world that the
  -- registry, the secrets, the lock, the clocks and the run history keep, and that such a child
  -- keeps, is kept by every call of `apply`, with or without a history and however it ends.
  pub apply-keeps :
      (P : W → Type 0) (with_history : Bool) (instance_name token : String) (s : State W)
      → Guarded by P instance_name token s.entries
      → P s.runs.world
      → P (apply by with_history instance_name token s).1.runs.world
  unfolding apply source
  apply-keeps P with_history instance_name token s g p =
      for_source-keeps P instance_name token s.entries g with_history _
        (record s { runs = record s.runs { world = (registry instance_name s.runs.world).1 } }) refl
        (g.reads s.runs.world p)
