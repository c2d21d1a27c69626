-- ===== src/RunHistory/Checks.antt =====
-- The CHECK constraints of the table, from migrations/versions/0002_sync_run_history.py, as a test
-- of one row. The counts are natural numbers, so the last constraint holds of every row.
use infra_sync.Prelude.{
  ℕ, String, inl, inr, Bool-cases, All-map, ◌≡◌, refl, Bool, true, ◌&&◌, not, Option, none, some,
  List, [], ◌∷◌, mem_text, arith, eq_iff, leb, if◌then◌else◌, ok, All, is_source_instance,
  text_length, is_some,
}
use infra_sync.RunHistory.{
  RunTrigger, SyncRun, Table, Outcome, is_running, valid_digest, valid_version, valid_source_type,
  valid_created_by, start_run, check_error, finalized, updated, finish_run, coalesce, update_rows,
  is_open,
}
use infra_sync.RunHistory.Finish.{IsAcceptable, finish_run-eq-ok}
use infra_sync.RunHistory.Errors.{is_safe_code, safe_error_message, text_length-safe_error_message}

-- `error_code IN (...)` of the migration
abbrev pub migrated_codes : List String
migrated_codes =
    "APPLY_LOCKED" ∷ "PLAN_BLOCKED" ∷ "PLAN_STALE" ∷ "CONFIRMATION_EXPIRED" ∷ "CONFIRMATION_INVALID"
    ∷ "CONFIRMATION_SOURCE_MISMATCH" ∷ "FAILED_BEFORE_WRITE" ∷ "PARTIALLY_APPLIED"
    ∷ "OUTCOME_UNCERTAIN" ∷ "APPLY_FAILED" ∷ []

abbrev pub valid_code : Option String → Bool
valid_code none = true
valid_code (some code) = mem_text code migrated_codes

-- Every code of `SAFE_ERROR_MESSAGES` is in the list of the migration.
is_safe_code-migrated :
    (code : String) → is_safe_code code ≡ true → mem_text code migrated_codes ≡ true
unfolding is_safe_code
is_safe_code-migrated code h = ground arith

abbrev valid_message : Option String → Bool
valid_message none = true
valid_message (some message) = leb (text_length message) 256

-- `sync_runs_lifecycle`
abbrev keeps_lifecycle : SyncRun → Bool
keeps_lifecycle row =
    if is_running row.status
    then not (is_some row.finished_at) && not (is_some row.duration_ms)
    else is_some row.finished_at && is_some row.duration_ms

-- The row passes every constraint.
pub record IsChecked (row : SyncRun) : Type 0 where
  pub source_type : valid_source_type row.source_type ≡ true
  pub source_instance : is_source_instance row.source_instance ≡ true
  pub plan_digest : valid_digest row.plan_digest ≡ true
  pub error_code : valid_code row.error_code ≡ true
  pub created_by : valid_created_by row.created_by ≡ true
  pub planner_version : valid_version row.planner_version ≡ true
  pub error_message_safe : valid_message row.error_message_safe ≡ true
  pub lifecycle : keeps_lifecycle row ≡ true

-- Where all rows pass every constraint of the migration, they do with the row that a successful
-- `start_run` inserts.
pub start_run-IsChecked :
    (source_instance source_type : String) (trigger : RunTrigger) (created_by : String)
    (plan_digest planner_version : Option String) (identifier started : ℕ) (table : Table)
    (row : SyncRun) (after : Table)
    → start_run source_instance source_type trigger created_by plan_digest planner_version
        identifier started table
      ≡ ok (row, after)
    → All IsChecked table
    → All IsChecked after
unfolding start_run
start_run-IsChecked source_instance source_type trigger created_by plan_digest planner_version
      identifier started table row after h old =
    ground arith

check_error-valid :
    (code message : Option String)
    → check_error code message ≡ ok tt
    → (valid_code code ≡ true) × (valid_message message ≡ true)
unfolding check_error
check_error-valid (some code) (some message) h = ground (
  arith,
  is_safe_code-migrated code,
  eq_iff message (safe_error_message code),
  text_length-safe_error_message code,
)
check_error-valid (some code) none h = ground arith
check_error-valid none (some message) h = ground arith
check_error-valid none none h = ground arith

valid-coalesce :
    (valid : Option String → Bool) (new old : Option String)
    → valid new ≡ true
    → valid old ≡ true
    → valid (coalesce new old) ≡ true
valid-coalesce valid (some s) old hn ho = hn
valid-coalesce valid none old hn ho = ho

finalized-IsChecked :
    (o : Outcome) (finished : ℕ) (row : SyncRun)
    → IsAcceptable o
    → IsChecked row
    → IsChecked (finalized o finished row)
unfolding finalized
finalized-IsChecked o finished row a h = record {
  source_type = h.source_type;
  source_instance = h.source_instance;
  plan_digest = valid-coalesce valid_digest o.plan_digest row.plan_digest a.digest h.plan_digest;
  error_code = (check_error-valid o.error_code o.error_message_safe a.error).0;
  created_by = h.created_by;
  planner_version =
      valid-coalesce valid_version o.planner_version row.planner_version a.version
        h.planner_version;
  error_message_safe = (check_error-valid o.error_code o.error_message_safe a.error).1;
  lifecycle = rw a.terminal refl;
}

updated-IsChecked :
    (identifier : ℕ) (o : Outcome) (finished : ℕ) (row : SyncRun)
    → IsAcceptable o
    → IsChecked row
    → IsChecked (updated identifier o finished row)
unfolding updated
updated-IsChecked identifier o finished row a h = elim (Bool-cases (is_open identifier row)) [
  | inl e ↦ rw e (finalized-IsChecked o finished row a h)
  | inr e ↦ rw e h
]

-- A successful update by `finish_run` keeps every CHECK constraint of the migration, on every row:
-- the one that it finalizes and those that it leaves. The error codes of the constraint are the
-- list of the migration, which the code keeps apart from its own table of messages.
pub finish_run-IsChecked :
    (identifier : ℕ) (o : Outcome) (finished : ℕ) (table : Table) (row : SyncRun) (after : Table)
    → finish_run identifier o finished table ≡ ok (row, after)
    → All IsChecked table
    → All IsChecked after
unfolding update_rows
finish_run-IsChecked identifier o finished table row after h old =
    let f = finish_run-eq-ok identifier o finished table row after h in
    rw f.after_eq (
      All-map IsChecked IsChecked (updated identifier o finished) table
        (λ r c. updated-IsChecked identifier o finished r f.acceptable c) old)
