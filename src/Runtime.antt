-- ===== src/Runtime.antt =====
-- netbox_sync/scheduler_runtime.py: one tick of the scheduler. Every source is evaluated once
-- against the persisted history, and those that are due are executed once.
pub mod Laws
use infra_sync.Prelude.{
  ℕ, ◌+◌, String, Bool, true, false, not, ◌&&◌, ◌||◌, Option, none, some, List, [], ◌∷◌, ◌++◌, map,
  if◌then◌else◌, Result, ok, err, is_some, length, keep, eqb,
}
use infra_sync.Prelude.Sorting.{sort_by}
use infra_sync.Config.{SourceConfig}
use infra_sync.RunHistory.{RunError, unavailable, Table, SyncRun}
use infra_sync.RunHistory.Latest.{latest_by_source, run_of}
use infra_sync.Scheduling.{
  ScheduleDecision, ScheduleError, SchedulerState, disabled, waiting, due, running, delayed,
  EvaluationStatus, evaluated, failed, evaluate_schedule, failed_decision, eligible,
}
use infra_sync.Orchestrator.{
  Outside, State, SourceRunResult, run_sources, history_failures, succeeded_count,
}

-- An entry of the iterable: a `SchedulerSourceInput`, whose config is `None` where the row could
-- not be converted, or a plain `SourceConfig`.
pub data Entry : Type 0 where
  input : Option SourceConfig → Entry
  plain : SourceConfig → Entry

pub record SchedulerTickResult : Type 0 where
  pub decisions : List ScheduleDecision
  pub execution : List SourceRunResult

-- The configs of the entries that have one.
unfoldable pub valid_configs : List Entry → List SourceConfig
valid_configs [] = []
valid_configs (input none ∷ entries) = valid_configs entries
valid_configs (input (some c) ∷ entries) = c ∷ valid_configs entries
valid_configs (plain c ∷ entries) = c ∷ valid_configs entries

-- A failed decision for each entry that has none.
unfoldable pub invalid_entries : List Entry → List ScheduleDecision
invalid_entries [] = []
invalid_entries (input none ∷ entries) = failed_decision none ∷ invalid_entries entries
invalid_entries (input (some c) ∷ entries) = invalid_entries entries
invalid_entries (plain c ∷ entries) = invalid_entries entries

abbrev pub caught : SourceConfig → Result ScheduleError ScheduleDecision → ScheduleDecision
caught source (ok d) = d
caught source (err e) = failed_decision (some source.source_instance)

-- The decision on one source; an exception of the evaluation is a failed decision.
unfoldable pub decide : Table → ℕ → ℕ → SourceConfig → ScheduleDecision
decide table now stale_seconds source = caught source (
    evaluate_schedule source (run_of source.source_instance (latest_by_source false table))
      (run_of source.source_instance (latest_by_source true table)) now stale_seconds)

module _ {W : Type 0} (outside : Outside W) where
  open outside use {now, connects}

  -- What follows the two queries.
  unfoldable pub tick : Bool → ℕ → ℕ → List Entry → State W → SchedulerTickResult × State W
  tick execute_due time stale_seconds entries s =
      let configs = sort_by (λ (c : SourceConfig). c.id) (valid_configs entries) in
      let eligible_sources =
        keep (λ (c : SourceConfig). eligible (decide s.table time stale_seconds c)) configs in
      let (execution, s') =
        run_sources outside execute_due (if execute_due then eligible_sources else []) s in
      (
        record {
          decisions = invalid_entries entries ++ map (decide s.table time stale_seconds) configs;
          execution = execution;
        },
        s',
      )

  -- The two queries fail with the connection, and the tick with them.
  unfoldable pub run_scheduler_tick :
      Bool → ℕ → List Entry → State W → Result RunError SchedulerTickResult × State W
  unfolding tick
  run_scheduler_tick execute_due stale_seconds entries s =
      let (time, w) = now s.world in
      let (first, w') = connects w in
      let (second, w'') = connects w' in
      if not first
      then (err unavailable, record s { world = w' })
      else if not second
      then (err unavailable, record s { world = w'' })
      else let (result, s') =
          tick execute_due time stale_seconds entries (record s { world = w'' }) in
        (ok result, s')

abbrev state_code : Option SchedulerState → ℕ
state_code none = 0
state_code (some disabled) = 1
state_code (some waiting) = 2
state_code (some due) = 3
state_code (some running) = 4
state_code (some delayed) = 5

abbrev pub was_evaluated : ScheduleDecision → Bool
was_evaluated d = elim d.evaluation_status [ evaluated ↦ true | failed ↦ false ]

-- `counts[state]`
unfoldable pub count_of : SchedulerState → List ScheduleDecision → ℕ
count_of state decisions = length (
    keep
      (λ (d : ScheduleDecision).
        was_evaluated d && eqb (state_code d.state) (state_code (some state)))
      decisions)

unfoldable pub evaluation_failed : List ScheduleDecision → ℕ
evaluation_failed decisions =
    length (keep (λ (d : ScheduleDecision). not (was_evaluated d)) decisions)

-- `SchedulerTickResult.failed`: the process exits with an error.
unfoldable pub tick_failed : SchedulerTickResult → Bool
unfolding evaluation_failed history_failures succeeded_count
tick_failed r =
    not (eqb (evaluation_failed r.decisions) 0)
    || not (eqb (length r.execution) (succeeded_count r.execution))
    || not (eqb (history_failures r.execution) 0)
