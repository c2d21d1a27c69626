-- ===== src/RunHistory/Newest.antt =====
-- What `latest_by_source` of netbox_sync/run_history.py finds, said without its order.
use infra_sync.Prelude.{
  String, ◌≤◌, ◌≡◌, ◌≢◌, refl, sym, ◌⊎◌, Bool-cases, inl, inr, Bool, true, false, ◌&&◌, Option,
  none, some, List, [], ◌∷◌, arith, ◌==◌, ==_refl, eq_iff, All,
}
use infra_sync.Prelude.Members.{IsAmong, All-IsAmong, All_of, IsAmong-keep, keep-IsAmong}
use infra_sync.RunHistory.{RunTrigger, manual, scheduled, SyncRun, Table, is_running}
use infra_sync.RunHistory.Errors.{
  RunStatus, running, succeeded, failed_before_write, partially_applied, outcome_uncertain, blocked,
  locked, failed,
}
use infra_sync.RunHistory.Latest.{
  same_trigger, is_selected, is_newer, better, newest, newest-is_newer, rows_of, run_of,
  latest_by_source, run_of-latest_by_source,
}

-- A row that the query ranges over, for one source.
pub record IsCandidate (only_running : Bool) (source : String) (row : SyncRun) : Type 0 where
  pub by_scheduler : row.trigger ≡ scheduled
  pub of_source : row.source_instance ≡ source
  pub still_running : (only_running ≡ false) ⊎ (row.status ≡ running)

same_trigger-scheduled : (t : RunTrigger) → same_trigger t scheduled ≡ true → t ≡ scheduled
same_trigger-scheduled manual h = absurd (cc h)
same_trigger-scheduled scheduled h = refl

is_running-running : (status : RunStatus) → is_running status ≡ true → status ≡ running
is_running-running running h = refl
is_running-running succeeded h = absurd (cc h)
is_running-running failed_before_write h = absurd (cc h)
is_running-running partially_applied h = absurd (cc h)
is_running-running outcome_uncertain h = absurd (cc h)
is_running-running blocked h = absurd (cc h)
is_running-running locked h = absurd (cc h)
is_running-running failed h = absurd (cc h)

abbrev is_candidate : Bool → String → SyncRun → Bool
is_candidate only_running source r = is_selected only_running r && r.source_instance == source

is_candidate-IsCandidate :
    (only_running : Bool) (source : String) (r : SyncRun)
    → is_candidate only_running source r ≡ true
    → IsCandidate only_running source r
unfolding is_selected
is_candidate-IsCandidate only_running source r h = record {
  by_scheduler = same_trigger-scheduled r.trigger (ground arith);
  of_source = ground (arith, eq_iff r.source_instance source);
  still_running = elim (Bool-cases only_running) [
    | inl asked ↦ inr (is_running-running r.status (ground arith))
    | inr any_status ↦ inl any_status
  ];
}

IsCandidate-is_candidate :
    (only_running : Bool) (source : String) (r : SyncRun)
    → IsCandidate only_running source r
    → is_candidate only_running source r ≡ true
unfolding is_selected
IsCandidate-is_candidate only_running source r c = elim c.still_running [
  | inl any_status ↦ rw (c.by_scheduler, any_status, c.of_source) (==_refl source)
  | inr still ↦ rw (c.by_scheduler, still, c.of_source) (ground (arith, ==_refl source))
]

-- The newest row is the one in front or the newest of the others.
better-eq-some :
    (row r : SyncRun) (o : Option SyncRun) → better row o ≡ some r → (r ≡ row) ⊎ (o ≡ some r)
better-eq-some row r none h = inl (cc h)
better-eq-some row r (some m) h = elim (Bool-cases (is_newer row m)) [
  | inl n ↦ inl (cc (rw n at h))
  | inr n ↦ inr (rw n at h)
]

newest-IsAmong : (rows : List SyncRun) (r : SyncRun) → newest rows ≡ some r → IsAmong r rows
unfolding newest
newest-IsAmong [] r h = absurd (cc h)
newest-IsAmong (row ∷ rows) r h = elim (better-eq-some row r (newest rows) h) [
  | inl same ↦ inl same
  | inr later ↦ inr (newest-IsAmong rows r later)
]

some_newest : (rows : List SyncRun) (r : SyncRun) → IsAmong r rows → newest rows ≢ none
unfolding newest
some_newest [] r m h = absurd m
some_newest (row ∷ rows) r m h = go (newest rows) h
  where
    go : (o : Option SyncRun) → better row o ≡ none → ⊥
    go none e = cc e
    go (some x) e = cc e

is_newer-le : (a b : SyncRun) → is_newer a b ≡ false → a.started_at ≤ b.started_at
unfolding is_newer
is_newer-le a b h = ground arith

-- The row is the latest of its source, or there is none.
unfoldable pub IsLatest : Bool → String → Table → Option SyncRun → Type 0
IsLatest only_running source table none = All (λ r. ¬ (IsCandidate only_running source r)) table
IsLatest only_running source table (some row) =
    IsAmong row table
    × IsCandidate only_running source row
    × All (λ r. (¬ (IsCandidate only_running source r)) ⊎ (r.started_at ≤ row.started_at)) table

not-IsCandidate :
    (only_running : Bool) (source : String) (r : SyncRun)
    → is_candidate only_running source r ≡ false
    → ¬ (IsCandidate only_running source r)
not-IsCandidate only_running source r h c = cc (h, IsCandidate-is_candidate only_running source r c)

newest-IsLatest :
    (only_running : Bool) (source : String) (table : Table) (o : Option SyncRun)
    → newest (rows_of only_running source table) ≡ o
    → IsLatest only_running source table o
unfolding IsLatest
newest-IsLatest only_running source table none h =
    All_of (λ r. ¬ (IsCandidate only_running source r)) table
      (λ r m c.
        some_newest _ r
          (keep-IsAmong (is_candidate only_running source) r table m
            (IsCandidate-is_candidate only_running source r c))
          h)
newest-IsLatest only_running source table (some row) h =
    let (member, chosen) =
      IsAmong-keep (is_candidate only_running source) row table (newest-IsAmong _ row h) in
    (
      member,
      is_candidate-IsCandidate only_running source row chosen,
      All_of (λ r. (¬ (IsCandidate only_running source r)) ⊎ (r.started_at ≤ row.started_at)) table
          (λ r m. older r m (is_candidate only_running source r) refl),
    )
  where
    older :
        (r : SyncRun)
        → IsAmong r table
        → (b : Bool) → is_candidate only_running source r ≡ b
        → (¬ (IsCandidate only_running source r)) ⊎ (r.started_at ≤ row.started_at)
    older r m false e = inl (not-IsCandidate only_running source r e)
    older r m true e = inr (
        is_newer-le r row (
          All-IsAmong (λ x. is_newer x row ≡ false) r _ (newest-is_newer _ row h)
            (keep-IsAmong (is_candidate only_running source) r table m e)))

-- What the query finds for a source is a row of the table that a scheduled run of that source
-- wrote, RUNNING where that is asked for, and no such row started later; it finds none only where
-- the table has no such row.
pub latest_by_source-IsLatest :
    (only_running : Bool) (source : String) (table : Table)
    → IsLatest only_running source table (run_of source (latest_by_source only_running table))
latest_by_source-IsLatest only_running source table =
    newest-IsLatest only_running source table _
      (sym (run_of-latest_by_source only_running source table))
