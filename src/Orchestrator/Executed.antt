-- ===== src/Orchestrator/Executed.antt =====
-- Which executors a batch calls.
use infra_sync.Prelude.{
  ℕ, ◌≡◌, refl, sym, ap, ◌∙◌, Bool-cases, inl, inr, Bool, true, false, not, Option, none, some,
  String, List, [], ◌∷◌, ◌++◌, map, Result, ok, err, keep, if◌then◌else◌,
}
use mathlib.Core.List.{append-nil, append_assoc}
use infra_sync.Config.{SourceConfig}
use infra_sync.RunHistory.{SyncRun, RunError, Table, Outcome, scheduled, start_run}
use infra_sync.Orchestrator.{
  Outside, State, SourceRunResult, HistoryStatus, start_failed, Execution, Failure, run_sources,
  run_each, run_source, after_start, run_recorded, conclude, start, finish, record_outcome,
  committed, transacted, is_refused, after_finish, failure_record, success_record,
}

abbrev pub is_skipped : HistoryStatus → Bool
is_skipped start_failed = true
is_skipped _ = false

abbrev added : SourceRunResult → List String
added r = if is_skipped r.history_status then [] else r.source_id ∷ []

-- The ids of the results that do not say that the source was skipped.
unfoldable pub ids_not_skipped : List SourceRunResult → List String
ids_not_skipped results =
    map (λ (r : SourceRunResult). r.source_id)
      (keep (λ (r : SourceRunResult). not (is_skipped r.history_status)) results)

-- The list `calls` of the world grows by the id of the source with each call of an executor, and
-- with nothing else.
pub record Traces {W : Type 0} (outside : Outside W) (calls : W → List String) : Type 0 where
  pub now : (w : W) → calls (outside.now w).1 ≡ calls w
  pub new_uuid : (w : W) → calls (outside.new_uuid w).1 ≡ calls w
  pub connects : (w : W) → calls (outside.connects w).1 ≡ calls w
  pub execute : (c : SourceConfig) (w : W) → calls (outside.execute c w).1 ≡ calls w ++ (c.id ∷ [])

module _ {W : Type 0} (outside : Outside W) (calls : W → List String)
    (t : Traces outside calls) where
  open outside use {now, new_uuid, connects, execute}

  committed-calls :
      {A : Type 0} (s : State W) (connected : Bool) (r : Result RunError (A × Table)) (w : W)
      → calls (committed outside s connected r w).1.world ≡ calls w
  committed-calls s false r w = refl
  committed-calls s true (err e) w = refl
  committed-calls s true (ok a) w = refl

  transacted-calls :
      {A : Type 0} (s : State W) (before : W) (r : Result RunError (A × Table)) (w : W)
      → calls before ≡ calls w
      → calls (transacted outside s before r (connects w)).1.world ≡ calls w
  transacted-calls s before r w h = committed-calls s _ r _ ∙ go (is_refused outside r)
    where
      go : (b : Bool) → calls (if b then before else (connects w).1) ≡ calls w
      go true = h
      go false = t.connects w

  record_outcome-calls :
      (run : Option SyncRun) (o : Outcome) (s : State W)
      → calls (record_outcome outside run o s).1.world ≡ calls s.world
  unfolding record_outcome finish
  record_outcome-calls none o s = refl
  record_outcome-calls (some run) o s = transacted-calls s _ _ _ refl ∙ t.now s.world

  conclude-calls :
      (source : SourceConfig) (started : ℕ) (run : Option SyncRun) (r : Result Failure Execution)
      (s : State W)
      → calls (conclude outside source started run r s).1.world ≡ calls s.world
  unfolding conclude
  conclude-calls source started run (err f) s =
      t.now _ ∙ record_outcome-calls run (failure_record outside f) s
  conclude-calls source started run (ok e) s =
      t.now _ ∙ record_outcome-calls run (success_record outside e) s

  record_outcome-not_skipped :
      (run : Option SyncRun) (o : Outcome) (s : State W)
      → is_skipped (record_outcome outside run o s).0 ≡ false
  unfolding record_outcome
  record_outcome-not_skipped none o s = refl
  record_outcome-not_skipped (some run) o s = go (finish outside run.run_id o s).0
    where
      go : (r : Result RunError SyncRun) → is_skipped (after_finish outside r) ≡ false
      go (ok row) = refl
      go (err e) = refl

  -- What one source adds to the list, read from its result.
  abbrev Adds : W → SourceRunResult × State W → Type 0
  Adds w (r, s) = calls s.world ≡ calls w ++ added r

  since : (w w' : W) (x : SourceRunResult × State W) → calls w' ≡ calls w → Adds w' x → Adds w x
  since w w' x h grown = grown ∙ ap (λ (l : List String). l ++ added x.0) h

  run_recorded-Adds :
      (source : SourceConfig) (started : ℕ) (run : Option SyncRun) (s : State W)
      → Adds s.world (run_recorded outside source started run s)
  unfolding run_recorded conclude
  run_recorded-Adds source started run s = go (execute source s.world) (t.execute source s.world)
    where
      go :
          (x : Result Failure Execution × W)
          → calls x.1 ≡ calls s.world ++ (source.id ∷ [])
          → Adds s.world (conclude outside source started run x.0 (record s { world = x.1 }))
      go (err f, w) h =
          let s' = record s { world = w } in
          rw (record_outcome-not_skipped run (failure_record outside f) s')
            (conclude-calls source started run (err f) s' ∙ h)
      go (ok e, w) h =
          let s' = record s { world = w } in
          rw (record_outcome-not_skipped run (success_record outside e) s')
            (conclude-calls source started run (ok e) s' ∙ h)

  start-calls :
      (source : SourceConfig) (s : State W) → calls (start outside source s).1.world ≡ calls s.world
  unfolding start
  start-calls source s =
      let w = (new_uuid s.world).1 in
      let told = t.now w ∙ t.new_uuid s.world in
      transacted-calls s s.world
        (start_run source.source_instance source.source_type scheduled "system/scheduler" none none
          (new_uuid s.world).0 (now w).0 s.table)
        (now w).1 (sym told)
      ∙ told

  after_start-Adds :
      (source : SourceConfig) (started : ℕ) (r : Result RunError SyncRun) (s : State W)
      → Adds s.world (after_start outside source started r s)
  unfolding after_start
  after_start-Adds source started (err e) s = t.now s.world ∙ sym (append-nil _)
  after_start-Adds source started (ok run) s = run_recorded-Adds source started (some run) s

  run_source-Adds :
      (with_history : Bool) (source : SourceConfig) (s : State W)
      → Adds s.world (run_source outside with_history source s)
  unfolding run_source
  run_source-Adds true source s =
      let s' = record s { world = (now s.world).1 } in
      let (r, s'') = start outside source s' in
      since s.world _ (after_start outside source (now s.world).0 r s'')
        (start-calls source s' ∙ t.now s.world) (after_start-Adds source (now s.world).0 r s'')
  run_source-Adds false source s =
      let s' = record s { world = (now s.world).1 } in
      since s.world _ (run_recorded outside source (now s.world).0 none s') (t.now s.world)
        (run_recorded-Adds source (now s.world).0 none s')

  ids_not_skipped-cons :
      (r : SourceRunResult) (rs : List SourceRunResult)
      → ids_not_skipped (r ∷ rs) ≡ added r ++ ids_not_skipped rs
  unfolding ids_not_skipped
  ids_not_skipped-cons r rs = elim (Bool-cases (is_skipped r.history_status)) [
    | inl e ↦ rw e refl
    | inr e ↦ rw e refl
  ]

  run_each-calls :
      (with_history : Bool) (sources : List SourceConfig) (s : State W)
      → calls (run_each outside with_history sources s).1.world
        ≡ calls s.world ++ ids_not_skipped (run_each outside with_history sources s).0
  unfolding run_each
  run_each-calls with_history [] s = unfold ids_not_skipped in sym (append-nil _)
  run_each-calls with_history (source ∷ sources) s =
      let grown = run_source-Adds with_history source s in
      let s' = (run_source outside with_history source s).1 in
      let rs = (run_each outside with_history sources s').0 in
      run_each-calls with_history sources s'
      ∙ ap (λ (l : List String). l ++ ids_not_skipped rs) grown
      ∙ append_assoc (calls s.world) (added (run_source outside with_history source s).0)
          (ids_not_skipped rs)
      ∙ ap (λ (l : List String). calls s.world ++ l) (sym (ids_not_skipped-cons _ rs))

  -- A batch calls the executors of the sources that its results do not call skipped, once each and
  -- in the order of the results.
  pub run_sources-calls :
      (with_history : Bool) (sources : List SourceConfig) (s : State W)
      → calls (run_sources outside with_history sources s).1.world
        ≡ calls s.world ++ ids_not_skipped (run_sources outside with_history sources s).0
  unfolding run_sources
  run_sources-calls with_history sources s = run_each-calls with_history _ s
