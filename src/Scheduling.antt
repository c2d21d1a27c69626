-- ===== src/Scheduling.antt =====
-- netbox_sync/application/scheduling.py: the cadence of one source. A time is a number of
-- microseconds since the year 1, UTC; a time past the year 9999 is Python's OverflowError.
pub mod Laws
use Prim.Native.Nat.{max}
use infra_sync.Prelude.{
  ℕ, ◌+◌, ◌-◌, ◌*◌, String, Bool, true, false, ◌&&◌, ◌||◌, not, Option, none, some, ltb, leb, eqb,
  if◌then◌else◌, Result, ok, err, ◌>>=◌, is_some,
}
use infra_sync.Json.{Json, num}
use infra_sync.Config.{SourceConfig}
use infra_sync.RunHistory.{SyncRun}

abbrev pub min_sync_interval : ℕ
min_sync_interval = 60

abbrev pub max_sync_interval : ℕ
max_sync_interval = 86400

-- One second, and `datetime.max`.
abbrev pub second : ℕ
second = 1000000

abbrev pub max_time : ℕ
max_time = 315537897600 * 1000000 - 1

pub data ScheduleError : Type 0 where
  overflow : ScheduleError

-- `parsed` is `int(value)`, where it is a natural number that `int` accepts.
unfoldable pub stale_threshold : Option ℕ → ℕ
stale_threshold none = 7200
stale_threshold (some n) = if leb 300 n && leb n 604800 then n else 7200

pub data SchedulerState : Type 0 where
  disabled waiting due running delayed : SchedulerState

pub data EvaluationStatus : Type 0 where
  evaluated failed : EvaluationStatus

pub record ScheduleDecision : Type 0 where
  pub source_instance : Option String
  pub state : Option SchedulerState
  pub last_scheduled_run_at : Option ℕ
  pub next_expected_at : Option ℕ
  pub evaluation_status : EvaluationStatus
  pub error_code : Option String

abbrev is_due : Option SchedulerState → Bool
is_due (some due) = true
is_due (some delayed) = true
is_due _ = false

abbrev is_evaluated : EvaluationStatus → Bool
is_evaluated evaluated = true
is_evaluated failed = false

unfoldable pub eligible : ScheduleDecision → Bool
eligible d = is_evaluated d.evaluation_status && is_due d.state

-- `ScheduleDecision.failed`
unfoldable pub failed_decision : Option String → ScheduleDecision
failed_decision source_instance = record {
  source_instance = source_instance;
  state = none;
  last_scheduled_run_at = none;
  next_expected_at = none;
  evaluation_status = failed;
  error_code = some "SCHEDULE_EVALUATION_FAILED";
}

-- A value that is no natural number fails the test as a negative number, a float, a text or a
-- Boolean does.
unfoldable pub validate_interval : Json → Bool → Option ℕ
validate_interval (num n) current =
    if leb (if current then 1 else min_sync_interval) n
      && leb n (if current then 2147483647 else max_sync_interval)
    then some n
    else none
validate_interval _ current = none

abbrev decision : SourceConfig → SchedulerState → Option ℕ → Option ℕ → ScheduleDecision
decision source state reference next_expected = record {
  source_instance = some source.source_instance;
  state = some state;
  last_scheduled_run_at = reference;
  next_expected_at = next_expected;
  evaluation_status = evaluated;
  error_code = none;
}

-- `reference + timedelta(seconds=...) if reference else now`
unfoldable pub next_expected_at : Option ℕ → ℕ → ℕ → Result ScheduleError ℕ
next_expected_at none interval now = ok now
next_expected_at (some reference) interval now =
    let expected = reference + interval * second in
    if leb expected max_time then ok expected else err overflow

-- `(now - latest_running.started_at).total_seconds() <= stale_seconds`; the difference of the
-- source is signed, so a run that starts in the future is fresh.
unfoldable pub has_fresh_run : Option SyncRun → ℕ → ℕ → Bool
has_fresh_run none now stale_seconds = false
has_fresh_run (some run) now stale_seconds = leb now (run.started_at + stale_seconds * second)

-- The ladder below the test on a running run. In its last branch `now` is past the reference.
unfoldable pub state_at : Option ℕ → ℕ → ℕ → ℕ → SchedulerState
state_at none interval next_expected now = if ltb now next_expected then waiting else due
state_at (some reference) interval next_expected now =
    if ltb now next_expected
    then waiting
    else if eqb now next_expected
    then due
    else if ltb (max (interval * 2) 1800 * second) (now - reference)
    then delayed
    else due

abbrev pub started : Option SyncRun → Option ℕ
started none = none
started (some run) = some run.started_at

unfoldable pub evaluate_schedule :
    SourceConfig
    → (latest_scheduled latest_running : Option SyncRun) → (now stale_seconds : ℕ)
    → Result ScheduleError ScheduleDecision
unfolding next_expected_at has_fresh_run state_at
evaluate_schedule source latest_scheduled latest_running now stale_seconds =
    let reference = started latest_scheduled in
    if not source.enabled || not source.sync_enabled
    then ok (decision source disabled reference none)
    else next_expected_at reference source.sync_interval_seconds now >>= λ next_expected.
        if has_fresh_run latest_running now stale_seconds
        then ok (decision source running reference (some next_expected))
        else ok (
            decision source (state_at reference source.sync_interval_seconds next_expected now)
              reference (some next_expected))
