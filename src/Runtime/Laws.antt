-- ===== src/Runtime/Laws.antt =====
-- What one tick decides and whom it runs.
use mathlib.Core.Path.{fun_ext}
use infra_sync.Prelude.{
  sym, String, ◌++◌, ℕ, ◌+◌, ◌*◌, ◌≡◌, Bool, true, false, not, ◌&&◌, Option, none, some, List, [],
  ◌∷◌, map, arith, if◌then◌else◌, length, length-append, length-map, keep, leb,
}
use infra_sync.Prelude.Sorting.{sort_by, length-sort_by}
use infra_sync.Config.{SourceConfig}
use infra_sync.RunHistory.{Table, SyncRun}
use infra_sync.RunHistory.Latest.{newest, rows_of, run_of-latest_by_source}
use infra_sync.Scheduling.{
  evaluate_schedule, failed_decision, eligible, second, max_time, has_fresh_run, started,
}
use infra_sync.Scheduling.Laws.{is_elapsed}
use infra_sync.Orchestrator.{Outside, State, SourceRunResult}
use infra_sync.Orchestrator.Order.{source_id-run_sources}
use infra_sync.Orchestrator.Executed.{Traces, ids_not_skipped, run_sources-calls}
use infra_sync.Runtime.{Entry, input, plain, caught, valid_configs, invalid_entries, decide, tick}

-- The next start can be represented.
abbrev pub is_representable : Option ℕ → ℕ → Bool
is_representable none interval = true
is_representable (some reference) interval = leb (reference + interval * second) max_time

-- Whether a source is to be run, said of the rows of the history themselves.
abbrev pub should_run : Table → ℕ → ℕ → SourceConfig → Bool
should_run table now stale source =
    let last = started (newest (rows_of false source.source_instance table)) in
    source.enabled
    && source.sync_enabled
    && not (has_fresh_run (newest (rows_of true source.source_instance table)) now stale)
    && is_elapsed last source.sync_interval_seconds now
    && is_representable last source.sync_interval_seconds

eligible-caught :
    (source : SourceConfig) (latest open_run : Option SyncRun) (now stale : ℕ)
    → eligible (caught source (evaluate_schedule source latest open_run now stale)) ≡ (
        source.enabled
        && source.sync_enabled
        && not (has_fresh_run open_run now stale)
        && is_elapsed (started latest) source.sync_interval_seconds now
        && is_representable (started latest) source.sync_interval_seconds)
unfolding evaluate_schedule eligible failed_decision
eligible-caught source none open_run now stale = ground arith
eligible-caught source (some run) open_run now stale = ground arith

-- A source is eligible in a tick exactly if it is enabled for synchronization, its newest scheduled
-- RUNNING run is absent or stale, its interval has passed since its newest scheduled run, and its
-- next start can be represented.
pub eligible-decide :
    (table : Table) (now stale : ℕ) (source : SourceConfig)
    → eligible (decide table now stale source) ≡ should_run table now stale source
unfolding decide
eligible-decide table now stale source =
    rw (run_of-latest_by_source, run_of-latest_by_source) (eligible-caught source _ _ now stale)

-- The ids of the sources that a tick is to run, in order.
abbrev pub ids_to_run : Bool → Table → ℕ → ℕ → List Entry → List String
ids_to_run execute_due table now stale entries =
    map (λ (c : SourceConfig). c.id)
      (sort_by (λ (c : SourceConfig). c.id)
        (if execute_due
          then keep (should_run table now stale)
              (sort_by (λ (c : SourceConfig). c.id) (valid_configs entries))
          else []))

module _ {W : Type 0} (outside : Outside W) (calls : W → List String)
    (traced : Traces outside calls) (execute_due : Bool) (now stale : ℕ) (entries : List Entry)
    (s : State W) where
  -- Where a trace in the world grows by the id of the source with each call of an executor and with
  -- nothing else, a tick has one result for each source that is to be run, in the order of the ids,
  -- and none if it does not execute, and the executors that it calls are those of the results that
  -- are not START_FAILED, once each and in that order.
  pub executed-tick :
      (let done = tick outside execute_due now stale entries s in
        (map (λ (r : SourceRunResult). r.source_id) done.0.execution
          ≡ ids_to_run execute_due s.table now stale entries)
        × (calls done.1.world ≡ calls s.world ++ ids_not_skipped done.0.execution))
  unfolding tick
  executed-tick = rw (fun_ext (λ (c : SourceConfig). sym (eligible-decide s.table now stale c))) (
    source_id-run_sources outside execute_due _ s,
    run_sources-calls outside calls traced execute_due _ s,
  )

length-entries :
    (entries : List Entry)
    → length (invalid_entries entries) + length (valid_configs entries) ≡ length entries
unfolding invalid_entries valid_configs
length-entries [] = omega arith
length-entries (input none ∷ entries) = omega (arith, length-entries entries)
length-entries (input (some c) ∷ entries) = omega (arith, length-entries entries)
length-entries (plain c ∷ entries) = omega (arith, length-entries entries)

-- Every entry gets one decision: an invalid row or a failed evaluation hides no other source.
length-decisions :
    {W : Type 0} (outside : Outside W) (execute_due : Bool) (now stale : ℕ) (entries : List Entry)
    (s : State W)
    → length (tick outside execute_due now stale entries s).0.decisions ≡ length entries
unfolding tick
length-decisions outside execute_due now stale entries s = omega (
  arith,
  length-append (invalid_entries entries) (
      map (decide s.table now stale)
        (sort_by (λ (c : SourceConfig). c.id) (valid_configs entries))),
  length-map (decide s.table now stale)
      (sort_by (λ (c : SourceConfig). c.id) (valid_configs entries)),
  length-sort_by (λ (c : SourceConfig). c.id) (valid_configs entries),
  length-entries entries,
)
