-- ===== src/ScheduleWorker/Laws.antt =====
-- What an update of a schedule does, and when it is refused.
use mathlib.Core.Path.{subst}
use infra_sync.Prelude.{
  ℕ, ◌<◌, ◌≤◌, ◌&&◌, All, ok_eq, String, ◌≡◌, refl, Bool, true, false, not, keep, ◌||◌, none, some,
  List, [], ◌∷◌, map, any, arith, ◌==◌, eqb, eq_iff, if◌then◌else◌, Result, ok, err, >>=-eq-ok,
  Bool-cases, inl, inr, require,
}
use infra_sync.Json.{Json, null, bool, num, real, str, arr, obj, Fields, get, or_null}
use infra_sync.Config.{SourceConfig}
use infra_sync.Scheduling.{validate_interval, min_sync_interval, max_sync_interval}
use infra_sync.ScheduleWorker.{
  ScheduleProblem, schedule_conflict, Request, Returned, is_expected, rescheduled, has_source,
  update, check_update, has_only, has_all, request_names, operation_is, named, flag, interval,
  schedule_invalid, handle, receive, handled, answer, is_health, updating,
}

-- The schedule that the request asks for is not the one that it expects.
abbrev pub is_change : Request → Bool
is_change r =
    not (eqb r.sync_interval_seconds r.expected_sync_interval_seconds)
    || (if r.sync_enabled then not r.expected_sync_enabled else r.expected_sync_enabled)

-- Two requests of one source with the same expectations.
pub record IsRival (r other : Request) : Type 0 where
  pub source : other.source_instance ≡ r.source_instance
  pub enabled : other.expected_sync_enabled ≡ r.expected_sync_enabled
  pub interval : other.expected_sync_interval_seconds ≡ r.expected_sync_interval_seconds

none_expected :
    (r other : Request) (table : List SourceConfig)
    → is_change r ≡ true
    → IsRival r other
    → any (is_expected other) (map (rescheduled r) table) ≡ false
unfolding is_expected rescheduled
none_expected r other [] change rival = refl
none_expected r other (c ∷ table) change rival = ground (
  arith,
  none_expected r other table change rival,
  rival.source,
  rival.enabled,
  rival.interval,
  eq_iff c.source_instance r.source_instance,
)

still_known :
    (r : Request) (table : List SourceConfig)
    → any (is_expected r) table ≡ true
    → has_source r.source_instance (map (rescheduled r) table) ≡ true
unfolding is_expected rescheduled
still_known r [] h = h
still_known r (c ∷ table) h = ground (arith, still_known r table)

accepted :
    (r : Request) (connected : Bool) (table : List SourceConfig) (row : Returned)
    → (update connected r table).0 ≡ ok row
    → (connected ≡ true) × (any (is_expected r) table ≡ true)
unfolding update
accepted r false table row h = absurd (cc h)
accepted r true table row h = elim (Bool-cases (any (is_expected r) table)) [
  | inl hit ↦ (refl, hit)
  | inr miss ↦ absurd (cc (rw miss at h))
]

-- After a successful update that changes a schedule, any update of the source that still expects
-- the old one is refused as a conflict and changes nothing: no change of a schedule is lost.
pub update-update :
    (r other : Request) (connected : Bool) (table : List SourceConfig) (row : Returned)
    → is_change r ≡ true
    → IsRival r other
    → (update connected r table).0 ≡ ok row
    → update true other (update connected r table).1
      ≡ (err schedule_conflict, (update connected r table).1)
unfolding update
update-update r other connected table row change rival h =
    let (up, hit) = accepted r connected table row h in
    rw (up, hit, none_expected r other table change rival, rival.source, still_known r table hit)
      refl

-- A record without its schedule.
abbrev pub unscheduled : SourceConfig → SourceConfig
unscheduled c = record c { sync_enabled = false; sync_interval_seconds = 0 }

unscheduled-rescheduled :
    (r : Request) (c : SourceConfig) → unscheduled (rescheduled r c) ≡ unscheduled c
unfolding rescheduled is_expected
unscheduled-rescheduled r c = elim (Bool-cases (is_expected r c)) [
  | inl hit ↦ rw hit refl
  | inr miss ↦ rw miss refl
]

unscheduled-all :
    (r : Request) (table : List SourceConfig)
    → map unscheduled (map (rescheduled r) table) ≡ map unscheduled table
unscheduled-all r [] = refl
unscheduled-all r (c ∷ table) = rw (unscheduled-rescheduled r c, unscheduled-all r table) refl

abbrev pub is_named : String → SourceConfig → Bool
is_named name c = c.source_instance == name

others-rescheduled :
    (r : Request) (name : String) (table : List SourceConfig)
    → (r.source_instance == name) ≡ false
    → keep (is_named name) (map (rescheduled r) table) ≡ keep (is_named name) table
unfolding rescheduled is_expected
others-rescheduled r name [] h = refl
others-rescheduled r name (c ∷ table) h = elim (Bool-cases (is_expected r c)) [
  | inl hit ↦
      let other : (c.source_instance == name) ≡ false = ground (
        arith,
        eq_iff c.source_instance r.source_instance,
        eq_iff c.source_instance name,
        eq_iff r.source_instance name,
      ) in
      rw (hit, other, others-rescheduled r name table h) refl
  | inr miss ↦ rw (miss, others-rescheduled r name table h) refl
]

-- An update keeps every column of every source but the two of the schedule, and keeps the sources
-- of other names altogether.
pub update_frame :
    (r : Request) (connected : Bool) (table : List SourceConfig) (name : String)
    → (r.source_instance == name) ≡ false
    → (map unscheduled (update connected r table).1 ≡ map unscheduled table)
      × (keep (is_named name) (update connected r table).1 ≡ keep (is_named name) table)
unfolding update
update_frame r false table name h = (refl, refl)
update_frame r true table name h = elim (Bool-cases (any (is_expected r) table)) [
  | inl hit ↦ rw hit (unscheduled-all r table, others-rescheduled r name table h)
  | inr miss ↦ rw miss (refl, refl)
]

-- The intervals that a request may ask for.
abbrev pub IsInterval : ℕ → Type 0
IsInterval n = (min_sync_interval ≤ n) × (n ≤ max_sync_interval)

interval-IsInterval :
    (key : String) (fs : Fields) (n : ℕ) → interval key false fs ≡ ok n → IsInterval n
unfolding validate_interval
interval-IsInterval key fs n h = go (or_null (get key fs)) h
  where
    go :
        (v : Json)
        → ◌≡◌ {A = Result ScheduleProblem ℕ}
            (elim (validate_interval v false) [ some n ↦ ok n | none ↦ err schedule_invalid ])
            (ok n)
        → IsInterval n
    go (num m) h = (ground arith, ground arith)
    go null h = absurd (cc h)
    go (bool b) h = absurd (cc h)
    go (real r) h = absurd (cc h)
    go (str t) h = absurd (cc h)
    go (arr xs) h = absurd (cc h)
    go (obj fs) h = absurd (cc h)

check_update-IsInterval :
    (fs : Fields) (r : Request) → check_update fs ≡ ok r → IsInterval r.sync_interval_seconds
unfolding check_update validate_interval
check_update-IsInterval fs r h =
    let (_, known, h1) =
      >>=-eq-ok (require (has_only request_names fs && has_all request_names fs) schedule_invalid) _
        h in
    let (_, asked, h2) =
      >>=-eq-ok (require (operation_is "update_schedule" (get "operation" fs)) schedule_invalid) _
        h1 in
    let (name, named_ok, h3) = >>=-eq-ok (named (get "source_instance" fs)) _ h2 in
    let (on, on_ok, h4) = >>=-eq-ok (flag "sync_enabled" fs) _ h3 in
    let (was_on, was_on_ok, h5) = >>=-eq-ok (flag "expected_sync_enabled" fs) _ h4 in
    let (n, n_ok, h6) = >>=-eq-ok (interval "sync_interval_seconds" false fs) _ h5 in
    let (m, m_ok, done) = >>=-eq-ok (interval "expected_sync_interval_seconds" true fs) _ h6 in
    subst (λ (r : Request). IsInterval r.sync_interval_seconds) (ok_eq done)
      (interval-IsInterval "sync_interval_seconds" fs n n_ok)

-- Every source has an interval that can be waited for.
abbrev pub IsScheduled : List SourceConfig → Type 0
IsScheduled table = All (λ (c : SourceConfig). 0 < c.sync_interval_seconds) table

rescheduled-IsScheduled :
    (r : Request) (table : List SourceConfig)
    → IsInterval r.sync_interval_seconds
    → IsScheduled table
    → IsScheduled (map (rescheduled r) table)
unfolding rescheduled
rescheduled-IsScheduled r [] i h = tt
rescheduled-IsScheduled r (c ∷ table) i h = (
  elim (Bool-cases (is_expected r c)) [
    | inl hit ↦ rw hit (omega (arith, i.0))
    | inr miss ↦ rw miss h.0
  ],
  rescheduled-IsScheduled r table i h.1,
)

update-IsScheduled :
    (r : Request) (connected : Bool) (table : List SourceConfig)
    → IsInterval r.sync_interval_seconds
    → IsScheduled table
    → IsScheduled (update connected r table).1
unfolding update
update-IsScheduled r false table i h = h
update-IsScheduled r true table i h = elim (Bool-cases (any (is_expected r) table)) [
  | inl hit ↦ rw hit (rescheduled-IsScheduled r table i h)
  | inr miss ↦ rw miss h
]

handled-IsScheduled :
    (connected : Bool) (m : Result ScheduleProblem Request) (table : List SourceConfig)
    → ((r : Request) → m ≡ ok r → IsInterval r.sync_interval_seconds)
    → IsScheduled table
    → IsScheduled (handled connected (updating m) table).1
unfolding update
handled-IsScheduled connected (err e) table i h = h
handled-IsScheduled connected (ok r) table i h =
    go (update connected r table) (update-IsScheduled r connected table (i r refl) h)
  where
    go :
        (done : Result ScheduleProblem Returned × List SourceConfig)
        → IsScheduled done.1
        → IsScheduled (answer done).1
    go (ok row, after) h' = h'
    go (err e, after) h' = h'

-- Where every source has an interval above zero, every source has one after any request, valid or
-- not, connected or not.
pub handle-IsScheduled :
    (connected : Bool) (v : Json) (table : List SourceConfig)
    → IsScheduled table
    → IsScheduled (handle connected v table).1
unfolding handle receive update
handle-IsScheduled connected (obj fs) table h = elim (Bool-cases (is_health fs)) [
  | inl asked ↦ rw asked h
  | inr other ↦
      rw other
        (handled-IsScheduled connected (check_update fs) table (check_update-IsInterval fs) h)
]
handle-IsScheduled connected null table h = h
handle-IsScheduled connected (bool b) table h = h
handle-IsScheduled connected (num n) table h = h
handle-IsScheduled connected (real r) table h = h
handle-IsScheduled connected (str t) table h = h
handle-IsScheduled connected (arr xs) table h = h
