-- ===== src/RunHistory/Laws.antt =====
-- The life of a run: it starts RUNNING, ends once, and is not written again.
use infra_sync.Prelude.{
  ℕ, ◌-◌, ◌/◌, String, ◌≡◌, ◌∙◌, refl, true, false, Option, none, some, [], ◌∷◌, arith, eqb,
  if◌then◌else◌, ok, err, any,
}
use infra_sync.RunHistory.{
  RunTrigger, SyncRun, missing_or_terminal, Table, Outcome, is_running, start_run, finalized,
  updated, finish_run, update_rows, find_open, get_run, is_open,
}
use infra_sync.RunHistory.Finish.{IsAcceptable, finish_run-eq-ok, finish_run_lem}
use infra_sync.RunHistory.Errors.{running, terminal_status}

pub run_id-updated :
    (identifier : ℕ) (o : Outcome) (finished : ℕ) (row : SyncRun)
    → (updated identifier o finished row).run_id ≡ row.run_id
unfolding updated finalized
run_id-updated identifier o finished row = ground arith

get_run-update_rows :
    (identifier other : ℕ) (o : Outcome) (finished : ℕ) (table : Table) (row : SyncRun)
    → get_run other table ≡ some row
    → get_run other (update_rows identifier o finished table)
      ≡ some (updated identifier o finished row)
unfolding get_run update_rows
get_run-update_rows identifier other o finished [] row h = cc
get_run-update_rows identifier other o finished (r ∷ rows) row h = ground (
  arith,
  get_run-update_rows identifier other o finished rows row,
  run_id-updated identifier o finished r,
)

-- A terminal record is immutable: whichever run is finished successfully, a run that has ended is
-- read back just as it was.
pub get_run-finish_run :
    (identifier other : ℕ) (o : Outcome) (finished : ℕ) (table after : Table) (done row : SyncRun)
    → finish_run identifier o finished table ≡ ok (done, after)
    → get_run other table ≡ some row
    → is_running row.status ≡ false
    → get_run other after ≡ some row
unfolding updated
get_run-finish_run identifier other o finished table after done row h e terminal =
    let f = finish_run-eq-ok identifier o finished table done after h in
    ground (arith, f.after_eq, get_run-update_rows identifier other o finished table row e)

-- The row that a start inserts is read back under its id, and no other id is affected.
get_run-start_run :
    (source_instance source_type : String) (trigger : RunTrigger) (created_by : String)
    (plan_digest planner_version : Option String) (identifier started other : ℕ)
    (table after : Table) (row : SyncRun)
    → start_run source_instance source_type trigger created_by plan_digest planner_version
        identifier started table
      ≡ ok (row, after)
    → get_run other after ≡ (if eqb identifier other then some row else get_run other table)
unfolding start_run get_run
get_run-start_run source_instance source_type trigger created_by plan_digest planner_version
      identifier started other table after row h =
    ground arith

pub is_running-terminal_status : (code : String) → is_running (terminal_status code) ≡ false
unfolding terminal_status
is_running-terminal_status code = ground arith

find_open-start_run :
    (source_instance source_type : String) (trigger : RunTrigger) (created_by : String)
    (plan_digest planner_version : Option String) (identifier started : ℕ) (table after : Table)
    (row : SyncRun)
    → start_run source_instance source_type trigger created_by plan_digest planner_version
        identifier started table
      ≡ ok (row, after)
    → find_open identifier after ≡ some row
unfolding start_run find_open
find_open-start_run source_instance source_type trigger created_by plan_digest planner_version
      identifier started table after row h =
    ground arith

find_open-fresh :
    (identifier : ℕ) (o : Outcome) (finished : ℕ) (table : Table)
    → any (λ (r : SyncRun). eqb r.run_id identifier) table ≡ false
    → find_open identifier (update_rows identifier o finished table) ≡ none
unfolding find_open update_rows
find_open-fresh identifier o finished [] h = refl
find_open-fresh identifier o finished (r ∷ rows) h =
    ground
      (arith, find_open-fresh identifier o finished rows, run_id-updated identifier o finished r)

pub record Started (identifier started : ℕ) (table after : Table) (row : SyncRun) : Type 0 where
  pub after_eq : after ≡ row ∷ table
  pub fresh : any (λ (r : SyncRun). eqb r.run_id identifier) table ≡ false
  pub run_id : row.run_id ≡ identifier
  pub started_at : row.started_at ≡ started
  pub open_status : row.status ≡ running

pub start_run-eq-ok :
    (source_instance source_type : String) (trigger : RunTrigger) (created_by : String)
    (plan_digest planner_version : Option String) (identifier started : ℕ) (table after : Table)
    (row : SyncRun)
    → start_run source_instance source_type trigger created_by plan_digest planner_version
        identifier started table
      ≡ ok (row, after)
    → Started identifier started table after row
unfolding start_run
start_run-eq-ok source_instance source_type trigger created_by plan_digest planner_version
      identifier started table after row h =
    ground arith

module _ (identifier started finished : ℕ) (table : Table) (row : SyncRun) (o : Outcome)
    (s : Started identifier started table (row ∷ table) row) where
  finished_row : SyncRun
  finished_row = finalized o finished row

  open_row : is_open identifier row ≡ true
  open_row = rw (s.run_id, s.open_status) (ground arith)

  finish_started :
      IsAcceptable o
      → finish_run identifier o finished (row ∷ table)
        ≡ ok (finished_row, update_rows identifier o finished (row ∷ table))
  unfolding finished_row find_open
  finish_started a = finish_run_lem identifier o finished (row ∷ table) a ∙ rw open_row refl

  get_finished :
      get_run identifier (update_rows identifier o finished (row ∷ table)) ≡ some finished_row
  unfolding get_run update_rows updated finished_row finalized
  get_finished = ground (arith, open_row, s.run_id)

  no_longer_open :
      is_running o.status ≡ false
      → find_open identifier (update_rows identifier o finished (row ∷ table)) ≡ none
  unfolding find_open update_rows updated finalized
  no_longer_open t = ground (arith, open_row, find_open-fresh identifier o finished table s.fresh)

-- The life of a run: a run that was started can be finished with any acceptable outcome; it is then
-- read back with that status and the elapsed milliseconds, and it cannot be finished again.
pub start_run-finish_run :
    (source_instance source_type : String) (trigger : RunTrigger) (created_by : String)
    (plan_digest planner_version : Option String) (identifier started finished later : ℕ)
    (table after : Table) (row : SyncRun) (o again : Outcome)
    → start_run source_instance source_type trigger created_by plan_digest planner_version
        identifier started table
      ≡ ok (row, after)
    → IsAcceptable o
    → IsAcceptable again
    → (done : SyncRun) × (final : Table) × (finish_run identifier o finished after
        ≡ ok (done, final))
      × (get_run identifier final ≡ some done)
      × (done.status ≡ o.status)
      × (done.duration_ms ≡ some ((finished - started) / 1000))
      × (finish_run identifier again later final ≡ err missing_or_terminal)
unfolding finalized
start_run-finish_run source_instance source_type trigger created_by plan_digest planner_version
      identifier started finished later table after row o again h a b =
    let s =
      start_run-eq-ok source_instance source_type trigger created_by plan_digest planner_version
        identifier started table after row h in
    let s' = rw s.after_eq at s in
    let final = update_rows identifier o finished (row ∷ table) in
    (
      finalized o finished row,
      final,
      rw s.after_eq
          (unfold finished_row in finish_started identifier started finished table row o s' a),
      unfold finished_row in get_finished identifier started finished table row o s',
      refl,
      rw s.started_at refl,
      finish_run_lem identifier again later final b
          ∙ rw (no_longer_open identifier started finished table row o s' a.terminal) refl,
    )
