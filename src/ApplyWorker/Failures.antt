-- ===== src/ApplyWorker/Failures.antt =====
-- What the handlers of `ApplySupervisor.apply` record of an exception.
use infra_sync.Prelude.{String, ◌≡◌, some}
use infra_sync.RunHistory.{SyncRun, Table, get_run}
use infra_sync.RunHistory.Errors.{safe_error_code, terminal_status}
use infra_sync.Orchestrator as Orchestrator
use infra_sync.Orchestrator.{Outside, committed, is_refused}
use infra_sync.ApplyWorker.{Problem, worker, Worker}
use infra_sync.ApplyWorker.Attempt.{Attempt}

module _ {W S : Type 0} (by : Worker W S) where
  open by use {history}

  -- The exception that is raised is one of the worker, and the run ends with its code.
  pub record IsRecorded (run : SyncRun) (e : Problem) (after : Table) : Type 0 where
    pub code : String
    pub raised : e ≡ worker code
    pub row : SyncRun
    pub found : get_run run.run_id after ≡ some row
    pub status : row.status ≡ terminal_status (safe_error_code (some code))
    pub error_code : row.error_code ≡ some (safe_error_code (some code))
