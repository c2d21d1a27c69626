-- ===== src/RunHistory.antt =====
-- netbox_sync/run_history.py: the durable record of manual and scheduled runs. The table
-- `sync_runs` is a list of rows; an operation that raises changes no row, as its transaction is
-- rolled back. A run id is the 128-bit number of its UUID and a time is a number of microseconds.
pub mod Errors
pub mod Counts
pub mod Finish
pub mod Checks
pub mod Laws
pub mod Open
pub mod Latest
pub mod Newest
use infra_sync.Prelude.{
  ℕ, ◌-◌, ◌/◌, String, Bool, true, false, ◌&&◌, ◌||◌, not, Option, none, some, List, [], ◌∷◌, ◌++◌,
  map, ◌==◌, ltb, leb, eqb, if◌then◌else◌, Result, ok, err, ◌>>=◌, ◌>>◌, require, any, keep,
  is_source_instance, is_digest, text_length, is_some,
}
use infra_sync.RunHistory.Errors.{RunStatus, running, safe_error_message, is_safe_code}
use infra_sync.RunHistory.Counts.{ActionCounts, no_counts}

pub data RunTrigger : Type 0 where
  manual scheduled : RunTrigger

pub record SyncRun : Type 0 where
  pub run_id : ℕ
  pub source_instance : String
  pub source_type : String
  pub trigger : RunTrigger
  pub started_at : ℕ
  pub finished_at : Option ℕ
  pub duration_ms : Option ℕ
  pub status : RunStatus
  pub plan_digest : Option String
  pub planner_version : Option String
  pub counts : ActionCounts
  pub error_code : Option String
  pub error_message_safe : Option String
  pub created_by : String

-- Each is a `ValueError` with its message, but for the unique violation that the database reports.
pub data RunError : Type 0 where
  invalid_source_instance invalid_source_type invalid_created_by : RunError
  invalid_plan_digest invalid_planner_version terminal_status_required : RunError
  invalid_error_code invalid_safe_message message_without_code : RunError
  missing_or_terminal unique_violation unavailable : RunError

abbrev pub Table : Type 0
Table = List SyncRun

abbrev pub is_running : RunStatus → Bool
is_running running = true
is_running _ = false

abbrev pub valid_digest : Option String → Bool
valid_digest none = true
valid_digest (some d) = is_digest d

abbrev pub valid_version : Option String → Bool
valid_version none = true
valid_version (some v) = leb (text_length v) 128

abbrev pub valid_source_type : String → Bool
valid_source_type t = t == "proxmox" || t == "esxi"

abbrev pub valid_created_by : String → Bool
valid_created_by s = leb 1 (text_length s) && leb (text_length s) 128

-- `start_run`: `identifier` is the given or generated UUID, `started` what the clock says.
unfoldable pub start_run :
    (source_instance source_type : String)
    → RunTrigger
    → (created_by : String) → (plan_digest planner_version : Option String)
    → (identifier started : ℕ) → Table
    → Result RunError (SyncRun × Table)
start_run source_instance source_type trigger created_by plan_digest planner_version identifier
      started table =
    do
      require (is_source_instance source_instance) invalid_source_instance
      require (valid_source_type source_type) invalid_source_type
      require (valid_created_by created_by) invalid_created_by
      require (valid_digest plan_digest) invalid_plan_digest
      require (valid_version planner_version) invalid_planner_version
      require (not (any (λ (r : SyncRun). eqb r.run_id identifier) table)) unique_violation
      let row : SyncRun = record {
        run_id = identifier;
        source_instance = source_instance;
        source_type = source_type;
        trigger = trigger;
        started_at = started;
        finished_at = none;
        duration_ms = none;
        status = running;
        plan_digest = plan_digest;
        planner_version = planner_version;
        counts = no_counts;
        error_code = none;
        error_message_safe = none;
        created_by = created_by;
      }
      ok (row, row ∷ table)

-- What `finish_run` is given beside the run's id.
pub record Outcome : Type 0 where
  pub status : RunStatus
  pub counts : ActionCounts
  pub plan_digest : Option String
  pub planner_version : Option String
  pub error_code : Option String
  pub error_message_safe : Option String

abbrev same_text : Option String → String → Bool
same_text none t = false
same_text (some s) t = s == t

-- The checks on the error code and its message.
unfoldable pub check_error : Option String → Option String → Result RunError (Unit {0})
check_error (some code) message = do
  require (is_safe_code code) invalid_error_code
  require (same_text message (safe_error_message code)) invalid_safe_message
check_error none (some message) = err message_without_code
check_error none none = ok tt

-- `COALESCE(new, old)`
abbrev pub coalesce : Option String → Option String → Option String
coalesce (some new) old = some new
coalesce none old = old

-- The columns that the UPDATE sets; `-` stops at 0, as GREATEST does there.
unfoldable pub finalized : Outcome → ℕ → SyncRun → SyncRun
finalized o finished row = record row {
  finished_at = some finished;
  duration_ms = some ((finished - row.started_at) / 1000);
  status = o.status;
  plan_digest = coalesce o.plan_digest row.plan_digest;
  planner_version = coalesce o.planner_version row.planner_version;
  counts = o.counts;
  error_code = o.error_code;
  error_message_safe = o.error_message_safe;
}

-- `WHERE run_id=%s AND status='RUNNING'`
abbrev pub is_open : ℕ → SyncRun → Bool
is_open identifier row = eqb row.run_id identifier && is_running row.status

-- One row under the UPDATE.
unfoldable pub updated : ℕ → Outcome → ℕ → SyncRun → SyncRun
updated identifier o finished row = if is_open identifier row then finalized o finished row else row

unfoldable pub update_rows : ℕ → Outcome → ℕ → Table → Table
update_rows identifier o finished table = map (updated identifier o finished) table

-- `SELECT ... WHERE run_id=%s`
unfoldable pub get_run : ℕ → Table → Option SyncRun
get_run identifier [] = none
get_run identifier (row ∷ rows) =
    if eqb row.run_id identifier then some row else get_run identifier rows

-- The row that `RETURNING *` hands back.
unfoldable pub find_open : ℕ → Table → Option SyncRun
find_open identifier [] = none
find_open identifier (row ∷ rows) =
    if is_open identifier row then some row else find_open identifier rows

-- What follows the UPDATE: `if row is None: raise ValueError(...)`.
abbrev pub written : ℕ → Outcome → ℕ → Table → Option SyncRun → Result RunError (SyncRun × Table)
written identifier o finished table none = err missing_or_terminal
written identifier o finished table (some row) =
    ok (finalized o finished row, update_rows identifier o finished table)

unfoldable pub finish_run : ℕ → Outcome → ℕ → Table → Result RunError (SyncRun × Table)
unfolding check_error update_rows find_open updated finalized
finish_run identifier o finished table = do
  require (not (is_running o.status)) terminal_status_required
  require (valid_digest o.plan_digest) invalid_plan_digest
  require (valid_version o.planner_version) invalid_planner_version
  check_error o.error_code o.error_message_safe
  written identifier o finished table (find_open identifier table)
