-- ===== src/RunHistory/Open.antt =====
-- How many runs are RUNNING, under the operations that write.
use infra_sync.Prelude.{ℕ, ◌≡◌, refl, Bool, true, false, [], ◌∷◌, arith, eqb, ok, any, length, keep}
use infra_sync.RunHistory.{
  SyncRun, Table, Outcome, is_running, updated, update_rows, finalized, finish_run,
}
use infra_sync.RunHistory.Finish.{finish_run-eq-ok}
use infra_sync.RunHistory.Laws.{run_id-updated}

abbrev pub has_id : ℕ → Table → Bool
has_id identifier table = any (λ (r : SyncRun). eqb r.run_id identifier) table

-- The primary key: no two rows have one id.
abbrev pub IsUnique : Table → Type 0
IsUnique [] = Unit
IsUnique (row ∷ rows) = (has_id row.run_id rows ≡ false) × IsUnique rows

unfoldable pub open_count : Table → ℕ
open_count table = length (keep (λ (r : SyncRun). is_running r.status) table)

has_id-update_rows :
    (other identifier : ℕ) (o : Outcome) (finished : ℕ) (table : Table)
    → has_id other (update_rows identifier o finished table) ≡ has_id other table
unfolding update_rows
has_id-update_rows other identifier o finished [] = refl
has_id-update_rows other identifier o finished (r ∷ rows) = ground (
  arith,
  has_id-update_rows other identifier o finished rows,
  run_id-updated identifier o finished r,
)

pub update_rows-IsUnique :
    (identifier : ℕ) (o : Outcome) (finished : ℕ) (table : Table)
    → IsUnique table
    → IsUnique (update_rows identifier o finished table)
unfolding update_rows
update_rows-IsUnique identifier o finished [] u = tt
update_rows-IsUnique identifier o finished (r ∷ rows) u = (
  ground (
    arith,
    run_id-updated identifier o finished r,
    has_id-update_rows r.run_id identifier o finished rows,
  ),
  update_rows-IsUnique identifier o finished rows u.1,
)

open_count-other :
    (identifier : ℕ) (o : Outcome) (finished : ℕ) (table : Table)
    → has_id identifier table ≡ false
    → open_count (update_rows identifier o finished table) ≡ open_count table
unfolding open_count update_rows updated
open_count-other identifier o finished [] h = refl
open_count-other identifier o finished (r ∷ rows) h =
    ground (arith, open_count-other identifier o finished rows)

-- A finished run that was RUNNING at the head of the table is RUNNING no more.
pub open_count-finish_run :
    (identifier : ℕ) (o : Outcome) (finished : ℕ) (row done : SyncRun) (table after : Table)
    → finish_run identifier o finished (row ∷ table) ≡ ok (done, after)
    → (row.run_id ≡ identifier) × (is_running row.status ≡ true) × (has_id identifier table ≡ false)
    → open_count after ≡ open_count table
unfolding open_count update_rows updated finalized
open_count-finish_run identifier o finished row done table after h e =
    let f = finish_run-eq-ok identifier o finished (row ∷ table) done after h in
    rw f.after_eq
      (ground (arith, f.acceptable.terminal, open_count-other identifier o finished table e.2))
