-- ===== src/Tests/Ticks.antt =====
-- Runs of the schedule, the orchestrator and the tick.
use infra_sync.Prelude.{
  ℕ, suc, String, List, ◌++◌, ◌+◌, ◌≡◌, refl, true, none, some, [], ◌∷◌, map, ok, err,
  if◌then◌else◌, ◌==◌,
}
use infra_sync.RunHistory.{SyncRun}
use infra_sync.RunHistory.Open.{IsUnique, open_count}
use infra_sync.Scheduling.{max_time, eligible}
use infra_sync.Orchestrator.{Outside, State, SourceRunResult, run_sources}
use infra_sync.Orchestrator.History.{unfinished, open_count-run_sources}
use infra_sync.Runtime.{Entry, input, plain, tick, decide}
use infra_sync.Orchestrator.Executed.{Traces, ids_not_skipped}
use infra_sync.Runtime.Laws.{eligible-decide, should_run, ids_to_run, executed-tick}
use infra_sync.Tests.Runs.{first_source, second_source, ended_row}

abbrev long_ago : SyncRun
long_ago = record ended_row { run_id = 3; started_at = 1000000 }

abbrev last_moment : SyncRun
last_moment = record ended_row { started_at = max_time }

-- A world that counts the calls; the executor of the second source fails.
abbrev outside : Outside ℕ
outside = record {
  now = λ w. (w, suc w);
  new_uuid = λ w. (w + 100, suc w);
  connects = λ w. (true, suc w);
  execute = λ c w. (
    if c.id == "b"
        then err (record { class_name = "RuntimeError"; code = some "bad code" })
        else ok (record {
          actions = some "create" ∷ none ∷ [];
          digest = none;
          planner_version = some "1";
        }),
    w,
  );
}

abbrev before : State ℕ
before = record { table = long_ago ∷ []; world = 2000000000 }

open_count-run_sources_example :
    IsUnique (run_sources outside true (second_source ∷ first_source ∷ []) before).1.table
    × (open_count (run_sources outside true (second_source ∷ first_source ∷ []) before).1.table
        ≡ unfinished (run_sources outside true (second_source ∷ first_source ∷ []) before).0
          + open_count before.table)
open_count-run_sources_example =
    open_count-run_sources outside true (second_source ∷ first_source ∷ []) before (refl, tt)

eligible-decide_example :
    eligible (decide (long_ago ∷ []) 2000000000 7200 first_source)
    ≡ should_run (long_ago ∷ []) 2000000000 7200 first_source
eligible-decide_example = eligible-decide (long_ago ∷ []) 2000000000 7200 first_source

-- A world that is the list of the sources whose executors were called.
abbrev recording : Outside (List String)
recording = record {
  now = λ w. (2000000000, w);
  new_uuid = λ w. (7, w);
  connects = λ w. (true, w);
  execute = λ c w. (err (record { class_name = "RuntimeError"; code = none }), w ++ (c.id ∷ []));
}

recording-Traces : Traces recording (λ w. w)
recording-Traces = record {
  now = λ w. refl;
  new_uuid = λ w. refl;
  connects = λ w. refl;
  execute = λ c w. refl;
}

abbrev rows : List Entry
rows = plain second_source ∷ input none ∷ input (some first_source) ∷ []

abbrev idle : State (List String)
idle = record { table = long_ago ∷ []; world = [] }

executed-tick_example :
    (map
        (λ (r : SourceRunResult). r.source_id)
        (tick recording true 2000000000 7200 rows idle).0.execution
      ≡ ids_to_run true idle.table 2000000000 7200 rows)
    × ((tick recording true 2000000000 7200 rows idle).1.world
        ≡ [] ++ ids_not_skipped (tick recording true 2000000000 7200 rows idle).0.execution)
executed-tick_example =
    executed-tick recording (λ w. w) recording-Traces true 2000000000 7200 rows idle
