-- ===== src/ApplyWorker/Recorded.antt =====
-- What an apply leaves in the run history.
use infra_sync.Prelude.{
  ℕ, ◌+◌, String, ◌≡◌, refl, Bool, true, false, Option, none, some, List, arith, Result, ok, err,
  to_ℕ,
}
use infra_sync.Config.{SourceConfig}
use infra_sync.Confirmation.{Entry}
use infra_sync.RunHistory.{SyncRun, RunError, Table, manual, start_run}
use infra_sync.RunHistory.Laws.{start_run-eq-ok}
use infra_sync.RunHistory.Open.{IsUnique, open_count}
use infra_sync.Orchestrator as Orchestrator
use infra_sync.Orchestrator.{Outside, committed, is_refused, finish}
use infra_sync.Orchestrator.History.{Leaves}
use infra_sync.ApplyWorker.{Problem, unexpected, Worker}
use infra_sync.ApplyWorker.Attempt.{State, attempt, registered, source}
use infra_sync.ApplyWorker.Supervisor.{start_manual, apply_run, after_start, for_source, apply}
use infra_sync.ApplyWorker.Ended.{is_unrecorded, conclude-Ends, conclude-none}

module _ {W S : Type 0} (by : Worker W S) where
  open by use {history}

  start-Ends :
      (instance_name token : String) (config : SourceConfig) (entries : List Entry)
      (s : Orchestrator.State W) (identifier started : ℕ) (w : W) (connected : Bool)
      (r : Result RunError (SyncRun × Table))
      → IsUnique s.table
      → start_run instance_name config.source_type manual "web/manual" none none identifier started
          s.table
        ≡ r
      → (let done =
            after_start by instance_name token entries (committed history s connected r w) in
          Leaves (to_ℕ (is_unrecorded done.0)) s.table done.1.runs.table)
  unfolding apply_run attempt
  start-Ends instance_name token config entries s identifier started w false r u e = record {
    unique = u;
    more = omega arith;
  }
  start-Ends instance_name token config entries s identifier started w true (err error) u e =
      record { unique = u; more = omega arith }
  start-Ends instance_name token config entries s identifier started w true (ok (run, after)) u e =
      let b =
        start_run-eq-ok instance_name config.source_type manual "web/manual" none none identifier
          started s.table after run e in
      conclude-Ends by run s.table _ _ (record {
        table_eq = b.after_eq;
        running = rw b.open_status refl;
        fresh = rw b.run_id b.fresh;
        unique = u;
      })

  apply_run-none :
      (instance_name token : String) (s : State W)
      → IsUnique s.runs.table
      → (let done = apply_run by instance_name token none s in
          Leaves (to_ℕ (is_unrecorded done.0)) s.runs.table done.1.runs.table)
  unfolding apply_run attempt
  apply_run-none instance_name token s u =
      let (same, quiet) =
        conclude-none by (attempt by instance_name token s).0
          (attempt by instance_name token s).1.runs in
      rw (same, quiet) (record { unique = u; more = omega arith })

  start_manual-Ends :
      (instance_name token : String) (config : SourceConfig) (entries : List Entry)
      (s : Orchestrator.State W)
      → IsUnique s.table
      → (let done =
            after_start by instance_name token entries (start_manual by instance_name config s) in
          Leaves (to_ℕ (is_unrecorded done.0)) s.table done.1.runs.table)
  unfolding start_manual
  start_manual-Ends instance_name token config entries s u =
      start-Ends instance_name token config entries s _ _ _ _ _ u refl

  for_source-Ends :
      (with_history : Bool) (instance_name token : String) (r : Result Problem SourceConfig)
      (s : State W)
      → IsUnique s.runs.table
      → is_unrecorded (elim r [ ok config ↦ err unexpected | err e ↦ err e ]) ≡ false
      → (let done = for_source by with_history instance_name token r s in
          Leaves (to_ℕ (is_unrecorded done.0)) s.runs.table done.1.runs.table)
  unfolding start_manual apply_run
  for_source-Ends with_history instance_name token (err e) s u plain =
      rw plain (record { unique = u; more = omega arith })
  for_source-Ends true instance_name token (ok config) s u plain =
      start_manual-Ends instance_name token config s.entries s.runs u
  for_source-Ends false instance_name token (ok config) s u plain =
      apply_run-none instance_name token s u

  registered-plain :
      (found : Option (ℕ × Option SourceConfig))
      → is_unrecorded (elim (registered found) [ ok config ↦ err unexpected | err e ↦ err e ])
        ≡ false
  registered-plain none = refl
  registered-plain (some (version, none)) = ground arith
  registered-plain (some (version, some config)) = ground arith

  -- Where the run ids are unique before a call of `apply`, they are after it, and the number of
  -- runs that are RUNNING is the same, or one more where the call raises the exception of a history
  -- that could not record the end: a run that is started is ended, whatever is raised meanwhile.
  pub open_count-apply :
      (with_history : Bool) (instance_name token : String) (s : State W)
      → IsUnique s.runs.table
      → (let done = apply by with_history instance_name token s in
          IsUnique done.1.runs.table
          × (open_count done.1.runs.table ≡ to_ℕ (is_unrecorded done.0) + open_count s.runs.table))
  unfolding apply source
  open_count-apply with_history instance_name token s u =
      let (found, w) = by.registry instance_name s.runs.world in
      let left =
        for_source-Ends with_history instance_name token (registered found)
          (record s { runs = record s.runs { world = w } }) u (registered-plain found) in
      (left.unique, left.more)
