-- ===== src/RunHistory/Finish.antt =====
-- What `finish_run` accepts, and what it did when it returns.
use infra_sync.Prelude.{
  ℕ, ◌≡◌, refl, true, false, not, Option, none, some, arith, ok, >>=-eq-ok, require,
}
use infra_sync.RunHistory.{
  SyncRun, terminal_status_required, invalid_plan_digest, invalid_planner_version, Table, Outcome,
  is_running, valid_digest, valid_version, check_error, finalized, finish_run, update_rows,
  find_open, written,
}

-- The arguments pass the checks that stand before the UPDATE.
pub record IsAcceptable (o : Outcome) : Type 0 where
  pub terminal : is_running o.status ≡ false
  pub digest : valid_digest o.plan_digest ≡ true
  pub version : valid_version o.planner_version ≡ true
  pub error : check_error o.error_code o.error_message_safe ≡ ok tt

pub record Finished (identifier : ℕ) (o : Outcome) (finished : ℕ) (table : Table) (row : SyncRun)
    (after : Table) : Type 0 where
  pub acceptable : IsAcceptable o
  pub before : SyncRun
  pub found : find_open identifier table ≡ some before
  pub row_eq : row ≡ finalized o finished before
  pub after_eq : after ≡ update_rows identifier o finished table

find-eq-ok :
    (identifier : ℕ) (o : Outcome) (finished : ℕ) (table : Table) (found : Option SyncRun)
    (row : SyncRun) (after : Table)
    → written identifier o finished table found ≡ ok (row, after)
    → (before : SyncRun) × (found ≡ some before)
      × (row ≡ finalized o finished before)
      × (after ≡ update_rows identifier o finished table)
find-eq-ok identifier o finished table none row after h = cc
find-eq-ok identifier o finished table (some before) row after h =
    (before, refl, ground arith, ground arith)

pub finish_run-eq-ok :
    (identifier : ℕ) (o : Outcome) (finished : ℕ) (table : Table) (row : SyncRun) (after : Table)
    → finish_run identifier o finished table ≡ ok (row, after)
    → Finished identifier o finished table row after
unfolding finish_run
finish_run-eq-ok identifier o finished table row after h =
    let (_, status, h') =
      >>=-eq-ok (require (not (is_running o.status)) terminal_status_required) _ h in
    let (_, digest, h'') =
      >>=-eq-ok (require (valid_digest o.plan_digest) invalid_plan_digest) _ h' in
    let (_, version, h3) =
      >>=-eq-ok (require (valid_version o.planner_version) invalid_planner_version) _ h'' in
    let (_, error, h4) = >>=-eq-ok (check_error o.error_code o.error_message_safe) _ h3 in
    let (before, found, row_eq, after_eq) = find-eq-ok identifier o finished table _ row after h4 in
    record {
      acceptable = record {
        terminal = ground arith;
        digest = ground arith;
        version = ground arith;
        error = error;
      };
      before = before;
      found = found;
      row_eq = row_eq;
      after_eq = after_eq;
    }

-- Where the arguments are acceptable and the run is open, `finish_run` returns.
pub finish_run_lem :
    (identifier : ℕ) (o : Outcome) (finished : ℕ) (table : Table)
    → IsAcceptable o
    → finish_run identifier o finished table
      ≡ written identifier o finished table (find_open identifier table)
unfolding finish_run
finish_run_lem identifier o finished table a = rw (a.terminal, a.digest, a.version, a.error) refl
