-- ===== src/Orchestrator/History.antt =====
-- What a batch leaves in the run history.
use infra_sync.Prelude.{
  ℕ, ◌+◌, ◌≡◌, refl, Bool, true, false, none, some, List, [], ◌∷◌, arith, Result, ok, err, length,
  keep, to_ℕ,
}
use infra_sync.Prelude.Sorting.{sort_by}
use infra_sync.Config.{SourceConfig}
use infra_sync.RunHistory.{
  SyncRun, RunError, scheduled, Table, Outcome, is_running, start_run, finish_run,
}
use infra_sync.RunHistory.Laws.{start_run-eq-ok}
use infra_sync.RunHistory.Open.{
  IsUnique, has_id, open_count, open_count-finish_run, update_rows-IsUnique,
}
use infra_sync.RunHistory.Finish.{finish_run-eq-ok}
use infra_sync.Orchestrator.{
  Outside, State, SourceRunResult, HistoryStatus, finalize_failed, Execution, Failure, run_sources,
  run_each, run_source, after_start, run_recorded, conclude, start, finish, record_outcome,
  committed, after_finish,
}

abbrev pub is_unfinished : HistoryStatus → Bool
is_unfinished finalize_failed = true
is_unfinished _ = false

-- How many results say that their record could not be finished.
unfoldable pub unfinished : List SourceRunResult → ℕ
unfinished results = length (keep (λ (r : SourceRunResult). is_unfinished r.history_status) results)

-- From `before` to `after`, the ids stay unique and `n` more runs are RUNNING.
pub record Leaves (n : ℕ) (before after : Table) : Type 0 where
  pub unique : IsUnique after
  pub more : open_count after ≡ n + open_count before

module _ {W : Type 0} (outside : Outside W) where
  -- The run that was started stands at the head.
  pub record IsHead (run : SyncRun) (table rest : Table) : Type 0 where
    pub table_eq : table ≡ run ∷ rest
    pub running : is_running run.status ≡ true
    pub fresh : has_id run.run_id rest ≡ false
    pub unique : IsUnique rest

  pub committed-Leaves :
      (run : SyncRun) (o : Outcome) (s : State W) (rest : Table) (finished : ℕ) (w : W)
      (connected : Bool) (r : Result RunError (SyncRun × Table))
      → IsHead run s.table rest
      → finish_run run.run_id o finished s.table ≡ r
      → Leaves
          (to_ℕ (is_unfinished (after_finish outside (committed outside s connected r w).0)))
          rest
          (committed outside s connected r w).1.table
  unfolding open_count
  committed-Leaves run o s rest finished w false r h e =
      rw h.table_eq (record { unique = (h.fresh, h.unique); more = ground (arith, h.running) })
  committed-Leaves run o s rest finished w true (err error) h e =
      rw h.table_eq (record { unique = (h.fresh, h.unique); more = ground (arith, h.running) })
  committed-Leaves run o s rest finished w true (ok (done, after)) h e =
      let e' = rw h.table_eq at e in
      let f = finish_run-eq-ok run.run_id o finished (run ∷ rest) done after e' in
      record {
        unique =
            rw f.after_eq
              (update_rows-IsUnique run.run_id o finished (run ∷ rest) (h.fresh, h.unique));
        more = omega (
          arith,
          open_count-finish_run run.run_id o finished run done rest after e'
              (refl, h.running, h.fresh),
        );
      }

  record_outcome-Leaves :
      (run : SyncRun) (o : Outcome) (s : State W) (rest : Table)
      → IsHead run s.table rest
      → Leaves
          (to_ℕ (is_unfinished (record_outcome outside (some run) o s).0))
          rest
          (record_outcome outside (some run) o s).1.table
  unfolding record_outcome finish
  record_outcome-Leaves run o s rest h = committed-Leaves run o s rest _ _ _ _ h refl

  conclude-Leaves :
      (source : SourceConfig) (started : ℕ) (run : SyncRun) (r : Result Failure Execution)
      (s : State W) (rest : Table)
      → IsHead run s.table rest
      → Leaves
          (to_ℕ (is_unfinished (conclude outside source started (some run) r s).0.history_status))
          rest
          (conclude outside source started (some run) r s).1.table
  unfolding conclude
  conclude-Leaves source started run (ok e) s rest h = record_outcome-Leaves run _ s rest h
  conclude-Leaves source started run (err f) s rest h = record_outcome-Leaves run _ s rest h

  -- With no repository the table is not touched.
  conclude-none :
      (source : SourceConfig) (started : ℕ) (r : Result Failure Execution) (s : State W)
      → ((conclude outside source started none r s).1.table ≡ s.table)
        × (is_unfinished (conclude outside source started none r s).0.history_status ≡ false)
  unfolding conclude record_outcome
  conclude-none source started (ok e) s = (refl, refl)
  conclude-none source started (err f) s = (refl, refl)

  start-Leaves :
      (source : SourceConfig) (at : ℕ) (s : State W) (identifier started : ℕ) (w : W)
      (connected : Bool) (r : Result RunError (SyncRun × Table))
      → IsUnique s.table
      → start_run source.source_instance source.source_type scheduled "system/scheduler" none none
          identifier started s.table
        ≡ r
      → Leaves
          (to_ℕ (
            is_unfinished
              (after_start outside source at
                (committed outside s connected r w).0
                (committed outside s connected r w).1).0.history_status))
          s.table
          (after_start outside source at
            (committed outside s connected r w).0
            (committed outside s connected r w).1).1.table
  unfolding after_start run_recorded
  start-Leaves source at s identifier started w false r u e = record {
    unique = u;
    more = omega arith;
  }
  start-Leaves source at s identifier started w true (err error) u e = record {
    unique = u;
    more = omega arith;
  }
  start-Leaves source at s identifier started w true (ok (run, after)) u e =
      let b =
        start_run-eq-ok source.source_instance source.source_type scheduled "system/scheduler" none
          none identifier started s.table after run e in
      conclude-Leaves source at run _ _ s.table (record {
        table_eq = b.after_eq;
        running = rw b.open_status refl;
        fresh = rw b.run_id b.fresh;
        unique = u;
      })

  conclude-none-Leaves :
      (source : SourceConfig) (started : ℕ) (r : Result Failure Execution) (s : State W)
      → IsUnique s.table
      → Leaves
          (to_ℕ (is_unfinished (conclude outside source started none r s).0.history_status))
          s.table
          (conclude outside source started none r s).1.table
  conclude-none-Leaves source started r s u =
      let (same, quiet) = conclude-none source started r s in
      rw (same, quiet) (record { unique = u; more = omega arith })

  run_source-Leaves :
      (with_history : Bool) (source : SourceConfig) (s : State W)
      → IsUnique s.table
      → Leaves
          (to_ℕ (is_unfinished (run_source outside with_history source s).0.history_status))
          s.table
          (run_source outside with_history source s).1.table
  unfolding run_source start run_recorded
  run_source-Leaves true source s u =
      start-Leaves source _ (record s { world = (outside.now s.world).1 }) _ _ _ _ _ u refl
  run_source-Leaves false source s u =
      let w = (outside.now s.world).1 in
      conclude-none-Leaves source (outside.now s.world).0 (outside.execute source w).0
        (record s { world = (outside.execute source w).1 }) u

  run_each-Leaves :
      (with_history : Bool) (sources : List SourceConfig) (s : State W)
      → IsUnique s.table
      → Leaves
          (unfinished (run_each outside with_history sources s).0)
          s.table
          (run_each outside with_history sources s).1.table
  unfolding run_each unfinished
  run_each-Leaves with_history [] s u = record { unique = u; more = omega arith }
  run_each-Leaves with_history (source ∷ sources) s u =
      let one = run_source-Leaves with_history source s u in
      let rest =
        run_each-Leaves with_history sources (run_source outside with_history source s).1
          one.unique in
      record { unique = rest.unique; more = ground (arith, one.more, rest.more) }

  -- Where the run ids are unique before a batch, they are unique after it, and the runs that the
  -- batch leaves RUNNING are just as many as its results report as FINALIZE_FAILED: no run is left
  -- open in silence, whatever the executors raise, the connection does and the codes of the
  -- exceptions are.
  pub open_count-run_sources :
      (with_history : Bool) (sources : List SourceConfig) (s : State W)
      → IsUnique s.table
      → IsUnique (run_sources outside with_history sources s).1.table
        × (open_count (run_sources outside with_history sources s).1.table
            ≡ unfinished (run_sources outside with_history sources s).0 + open_count s.table)
  unfolding run_sources
  open_count-run_sources with_history sources s u =
      let l = run_each-Leaves with_history (sort_by (λ (c : SourceConfig). c.id) sources) s u in
      (l.unique, l.more)
