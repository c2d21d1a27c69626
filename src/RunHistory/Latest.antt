-- ===== src/RunHistory/Latest.antt =====
-- `latest_by_source` of netbox_sync/run_history.py: `SELECT DISTINCT ON (source_instance) ... ORDER
-- BY source_instance, started_at DESC, run_id DESC`. The order in which the sources come is not
-- modelled: the callers build a `dict` from the rows.
use infra_sync.Prelude.{
  String, ◌≡◌, refl, inl, inr, Bool, true, false, ◌&&◌, ◌||◌, not, Option, none, some, List, [],
  ◌∷◌, arith, ◌==◌, eq_iff, ltb, eqb, if◌then◌else◌, All, keep, Option-cases, All-map_of,
}
use infra_sync.RunHistory.{RunTrigger, manual, scheduled, SyncRun, Table, is_running}

abbrev pub same_trigger : RunTrigger → RunTrigger → Bool
same_trigger manual manual = true
same_trigger scheduled scheduled = true
same_trigger _ _ = false

-- `"trigger"='scheduled'` and, where it is asked for, `status='RUNNING'`
unfoldable pub is_selected : Bool → SyncRun → Bool
is_selected only_running row =
    same_trigger row.trigger scheduled && (not only_running || is_running row.status)

-- `a` comes before `b` under `started_at DESC, run_id DESC`.
unfoldable pub is_newer : SyncRun → SyncRun → Bool
is_newer a b =
    ltb b.started_at a.started_at || eqb b.started_at a.started_at && ltb b.run_id a.run_id

-- One row for each source, the first of its source in the order.
unfoldable pub place : SyncRun → Table → Table
place row [] = row ∷ []
place row (r ∷ rows) =
    let rest = r ∷ place row rows in
    if r.source_instance == row.source_instance
    then (if is_newer row r then row else r) ∷ rows
    else rest

unfoldable pub latest_by_source : Bool → Table → Table
unfolding place is_selected is_newer
latest_by_source only_running [] = []
latest_by_source only_running (row ∷ rows) =
    let rest = latest_by_source only_running rows in
    if is_selected only_running row then place row rest else rest

-- `{run.source_instance: run for run in rows}.get(source)`
unfoldable pub run_of : String → Table → Option SyncRun
run_of source [] = none
run_of source (row ∷ rows) = if row.source_instance == source then some row else run_of source rows

abbrev pub better : SyncRun → Option SyncRun → Option SyncRun
better row none = some row
better row (some r) = some (if is_newer row r then row else r)

-- The newest of some rows, by a plain search.
unfoldable pub newest : List SyncRun → Option SyncRun
newest [] = none
newest (row ∷ rows) = better row (newest rows)

run_of-place :
    (source : String) (row : SyncRun) (rows : Table)
    → run_of source (place row rows) ≡ (
        if row.source_instance == source
        then better row (run_of source rows)
        else run_of source rows)
unfolding run_of place
run_of-place source row [] = ground arith
run_of-place source row (r ∷ rows) = ground (
  arith,
  run_of-place source row rows,
  eq_iff r.source_instance row.source_instance,
  eq_iff r.source_instance source,
  eq_iff row.source_instance source,
)

-- The rows that the query ranges over for one source.
abbrev pub rows_of : Bool → String → Table → Table
rows_of only_running source table =
    keep (λ (r : SyncRun). is_selected only_running r && r.source_instance == source) table

-- The query finds for each source the newest of its selected rows, and none if it has none.
pub run_of-latest_by_source :
    (only_running : Bool) (source : String) (table : Table)
    → run_of source (latest_by_source only_running table)
      ≡ newest (rows_of only_running source table)
unfolding latest_by_source run_of newest
run_of-latest_by_source only_running source [] = refl
run_of-latest_by_source only_running source (row ∷ rows) = ground (
  arith,
  run_of-place source row (latest_by_source only_running rows),
  run_of-latest_by_source only_running source rows,
)

is_newer_trans :
    (a b c : SyncRun) → is_newer a b ≡ false → is_newer b c ≡ false → is_newer a c ≡ false
unfolding is_newer
is_newer_trans a b c h k = ground arith

newest-none : (P : SyncRun → Type 0) (rows : List SyncRun) → newest rows ≡ none → All P rows
unfolding newest
newest-none P [] h = tt
newest-none P (row ∷ rows) h = absurd (some_better (newest rows) h)
  where
    some_better : (o : Option SyncRun) → better row o ≡ none → ⊥
    some_better none e = cc
    some_better (some r) e = cc

-- No row of the list is newer than the one that is found.
pub newest-is_newer :
    (rows : List SyncRun) (r : SyncRun)
    → newest rows ≡ some r
    → All (λ x. is_newer x r ≡ false) rows
unfolding newest is_newer
newest-is_newer [] r h = tt
newest-is_newer (row ∷ rows) r h = elim (Option-cases (newest rows)) [
  | inl e ↦ (ground arith, newest-none (λ x. is_newer x r ≡ false) rows e)
  | inr (m, e) ↦ (
    ground arith,
    All-map_of (λ x. is_newer x m ≡ false) (λ x. is_newer x r ≡ false) rows
        (λ x k. ground (arith, is_newer_trans x m r)) (newest-is_newer rows m e),
  )
]
