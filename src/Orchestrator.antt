-- ===== src/Orchestrator.antt =====
-- netbox_sync/orchestrator.py: the sequential execution of several sources, each with its record in
-- the run history. What is outside (the clock, the UUIDs, the connection to the database and the
-- executors) is the parameter `Outside`; the table of runs is the state beside it.
pub mod Order
pub mod Executed
pub mod History
use infra_sync.Prelude.{
  ℕ, String, Bool, true, false, not, ◌||◌, Option, none, some, List, [], ◌∷◌, if◌then◌else◌, Result,
  ok, err, is_some, length, keep,
}
use infra_sync.Prelude.Sorting.{sort_by}
use infra_sync.Config.{SourceConfig}
use infra_sync.RunHistory.{
  RunTrigger, scheduled, SyncRun, RunError, unavailable, unique_violation, missing_or_terminal,
  Table, Outcome, start_run, finish_run,
}
use infra_sync.RunHistory.Errors.{
  RunStatus, succeeded, safe_error_code, safe_error_message, terminal_status,
}
use infra_sync.RunHistory.Counts.{ActionCounts, no_counts, from_items}

pub data HistoryStatus : Type 0 where
  not_requested recorded start_failed finalize_failed : HistoryStatus

-- `RUN_HISTORY_UNAVAILABLE`
abbrev pub history_unavailable : String
history_unavailable = "RUN_HISTORY_UNAVAILABLE"

pub record SourceRunResult : Type 0 where
  pub source_id : String
  pub source_instance : String
  pub source_type : String
  pub success : Bool
  pub started_at : ℕ
  pub finished_at : ℕ
  pub error_type : Option String
  pub error_summary : Option String
  pub history_status : HistoryStatus
  pub history_error_code : Option String

-- What an executor returns, as far as it is read, or the exception that it raises: the name of its
-- class and the text that its attribute `code` holds, if it holds one.
pub record Execution : Type 0 where
  pub actions : List (Option String)
  pub digest : Option String
  pub planner_version : Option String

pub record Failure : Type 0 where
  pub class_name : String
  pub code : Option String

pub record Outside (W : Type 0) : Type 0 where
  pub now : W → ℕ × W
  pub new_uuid : W → ℕ × W
  pub connects : W → Bool × W
  pub execute : SourceConfig → W → Result Failure Execution × W

pub record State (W : Type 0) : Type 0 where
  pub table : Table
  pub world : W

abbrev pub is_failed_history : HistoryStatus → Bool
is_failed_history start_failed = true
is_failed_history finalize_failed = true
is_failed_history _ = false

abbrev history_code : HistoryStatus → Option String
history_code finalize_failed = some history_unavailable
history_code _ = none

module _ {W : Type 0} (outside : Outside W) where
  open outside use {now, new_uuid, connects, execute}

  abbrev pub committed :
      {A : Type 0} → State W → Bool → Result RunError (A × Table) → W → Result RunError A × State W
  committed s false r w = (err unavailable, record s { world = w })
  committed s true (err e) w = (err e, record s { world = w })
  committed s true (ok (a, table)) w = (ok a, record { table = table; world = w })

  -- The checks of the arguments stand before the connection; a refusal by one of them leaves the
  -- world at `before`.
  abbrev pub is_refused : {A : Type 0} → Result RunError A → Bool
  is_refused (ok a) = false
  is_refused (err unique_violation) = false
  is_refused (err missing_or_terminal) = false
  is_refused (err unavailable) = false
  is_refused (err e) = true

  abbrev pub transacted :
      {A : Type 0}
      → State W
      → W
      → Result RunError (A × Table)
      → Bool × W
      → Result RunError A × State W
  transacted s before r (connected, after) =
      committed s (is_refused r || connected) r (if is_refused r then before else after)

  -- `run_repository.start_run(source, type, SCHEDULED, 'system/scheduler')`
  unfoldable pub start : SourceConfig → State W → Result RunError SyncRun × State W
  start source s =
      let (identifier, w) = new_uuid s.world in
      let (started, w') = now w in
      transacted s s.world
        (start_run source.source_instance source.source_type scheduled "system/scheduler" none none
          identifier started s.table)
        (connects w')

  -- `run_repository.finish_run(...)`, of a terminal status
  unfoldable pub finish : ℕ → Outcome → State W → Result RunError SyncRun × State W
  finish identifier o s =
      let (finished, w) = now s.world in
      transacted s w (finish_run identifier o finished s.table) (connects w)

  abbrev pub after_finish : Result RunError SyncRun → HistoryStatus
  after_finish (ok row) = recorded
  after_finish (err e) = finalize_failed

  -- Records the outcome where a run was started.
  unfoldable pub record_outcome : Option SyncRun → Outcome → State W → HistoryStatus × State W
  record_outcome none o s = (not_requested, s)
  record_outcome (some run) o s = let (r, s') = finish run.run_id o s in (after_finish r, s')

  abbrev pub failure_record : Failure → Outcome
  failure_record f = record {
    status = terminal_status (safe_error_code f.code);
    counts = no_counts;
    plan_digest = none;
    planner_version = none;
    error_code = some (safe_error_code f.code);
    error_message_safe = some (safe_error_message (safe_error_code f.code));
  }

  abbrev pub success_record : Execution → Outcome
  success_record e = record {
    status = succeeded;
    counts = from_items e.actions;
    plan_digest = e.digest;
    planner_version = e.planner_version;
    error_code = none;
    error_message_safe = none;
  }

  abbrev result :
      SourceConfig → ℕ → ℕ → Bool → Option String → Option String → HistoryStatus → SourceRunResult
  result source started finished success error_type error_summary status = record {
    source_id = source.id;
    source_instance = source.source_instance;
    source_type = source.source_type;
    success = success;
    started_at = started;
    finished_at = finished;
    error_type = error_type;
    error_summary = error_summary;
    history_status = status;
    history_error_code = history_code status;
  }

  -- The two outcomes of `execute_source`, once a run was started or none was asked for.
  unfoldable pub conclude :
      SourceConfig
      → ℕ
      → Option SyncRun
      → Result Failure Execution
      → State W
      → SourceRunResult × State W
  unfolding record_outcome
  conclude source started run (err failure) s =
      let (status, s') = record_outcome run (failure_record failure) s in
      let (finished, w) = now s'.world in
      (
        result source started finished false (some failure.class_name)
            (some "source execution failed") status,
        record s' { world = w },
      )
  conclude source started run (ok execution) s =
      let (status, s') = record_outcome run (success_record execution) s in
      let (finished, w) = now s'.world in
      (result source started finished true none none status, record s' { world = w })

  unfoldable pub run_recorded :
      SourceConfig → ℕ → Option SyncRun → State W → SourceRunResult × State W
  unfolding conclude
  run_recorded source started run s =
      let (outcome, w) = execute source s.world in
      conclude source started run outcome (record s { world = w })

  abbrev skipped : SourceConfig → ℕ → ℕ → SourceRunResult
  skipped source started finished = record {
    source_id = source.id;
    source_instance = source.source_instance;
    source_type = source.source_type;
    success = false;
    started_at = started;
    finished_at = finished;
    error_type = some "HistoryPersistenceError";
    error_summary = some "source execution skipped because run history is unavailable";
    history_status = start_failed;
    history_error_code = some history_unavailable;
  }

  -- A source whose record cannot be started is skipped.
  unfoldable pub after_start :
      SourceConfig → ℕ → Result RunError SyncRun → State W → SourceRunResult × State W
  unfolding run_recorded
  after_start source started (err e) s =
      let (finished, w) = now s.world in (skipped source started finished, record s { world = w })
  after_start source started (ok run) s = run_recorded source started (some run) s

  -- The body of the loop; `with_history` is whether a repository was given.
  unfoldable pub run_source : Bool → SourceConfig → State W → SourceRunResult × State W
  unfolding after_start start
  run_source with_history source s =
      let (started, w) = now s.world in
      let s' = record s { world = w } in
      if with_history
      then (let (r, s'') = start source s' in after_start source started r s'')
      else run_recorded source started none s'

  unfoldable pub run_each : Bool → List SourceConfig → State W → List SourceRunResult × State W
  unfolding run_source
  run_each with_history [] s = ([], s)
  run_each with_history (source ∷ sources) s =
      let (r, s') = run_source with_history source s in
      let (rs, s'') = run_each with_history sources s' in (r ∷ rs, s'')

  unfoldable pub run_sources : Bool → List SourceConfig → State W → List SourceRunResult × State W
  unfolding run_each
  run_sources with_history sources s =
      run_each with_history (sort_by (λ (c : SourceConfig). c.id) sources) s

-- `MultiSourceRunResult`
unfoldable pub succeeded_count : List SourceRunResult → ℕ
succeeded_count results = length (keep (λ (r : SourceRunResult). r.success) results)

unfoldable pub history_failures : List SourceRunResult → ℕ
history_failures results =
    length (keep (λ (r : SourceRunResult). is_some r.history_error_code) results)
