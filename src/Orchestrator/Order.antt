-- ===== src/Orchestrator/Order.antt =====
-- Which sources are run, and in which order.
use infra_sync.Prelude.{
  ℕ, ◌≡◌, refl, Bool, true, false, Option, none, some, List, [], ◌∷◌, map, Result, ok, err,
}
use infra_sync.Prelude.Sorting.{sort_by}
use infra_sync.Config.{SourceConfig}
use infra_sync.RunHistory.{SyncRun, RunError}
use infra_sync.Orchestrator.{
  Outside, State, SourceRunResult, Execution, Failure, run_sources, run_each, run_source,
  after_start, run_recorded, conclude,
}

module _ {W : Type 0} (outside : Outside W) where
  source_id-conclude :
      (source : SourceConfig) (started : ℕ) (run : Option SyncRun) (r : Result Failure Execution)
      (s : State W)
      → (conclude outside source started run r s).0.source_id ≡ source.id
  unfolding conclude
  source_id-conclude source started run (ok e) s = refl
  source_id-conclude source started run (err f) s = refl

  source_id-after_start :
      (source : SourceConfig) (started : ℕ) (r : Result RunError SyncRun) (s : State W)
      → (after_start outside source started r s).0.source_id ≡ source.id
  unfolding after_start run_recorded
  source_id-after_start source started (err e) s = refl
  source_id-after_start source started (ok run) s = source_id-conclude source started (some run) _ _

  source_id-run_source :
      (with_history : Bool) (source : SourceConfig) (s : State W)
      → (run_source outside with_history source s).0.source_id ≡ source.id
  unfolding run_source run_recorded
  source_id-run_source true source s = source_id-after_start source _ _ _
  source_id-run_source false source s = source_id-conclude source _ none _ _

  source_id-run_each :
      (with_history : Bool) (sources : List SourceConfig) (s : State W)
      → map (λ (r : SourceRunResult). r.source_id) (run_each outside with_history sources s).0
        ≡ map (λ (c : SourceConfig). c.id) sources
  unfolding run_each
  source_id-run_each with_history [] s = refl
  source_id-run_each with_history (source ∷ sources) s = cc (
    source_id-run_source with_history source s,
    source_id-run_each with_history sources (run_source outside with_history source s).1,
  )

  -- One result for each source, in the order of the ids, whichever executors fail and whether the
  -- history can be written or not: no failure ends the batch.
  pub source_id-run_sources :
      (with_history : Bool) (sources : List SourceConfig) (s : State W)
      → map (λ (r : SourceRunResult). r.source_id) (run_sources outside with_history sources s).0
        ≡ map (λ (c : SourceConfig). c.id) (sort_by (λ (c : SourceConfig). c.id) sources)
  unfolding run_sources
  source_id-run_sources with_history sources s = source_id-run_each with_history _ s
