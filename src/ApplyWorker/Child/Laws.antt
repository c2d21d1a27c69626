-- ===== src/ApplyWorker/Child/Laws.antt =====
-- What a child writes, and how the supervisor reads its answer.
use mathlib.Core.Path.{subst}
use infra_sync.Prelude.{
  sym, ℕ, String, ◌≡◌, ◌⊎◌, inl, inr, refl, ap, Bool, true, false, not, ◌||◌, Option, none, some,
  arith, ◌==◌, if◌then◌else◌, eq_iff, ltb, mem_text, Result, ok, err, Bool-cases,
}
use infra_sync.Json.{
  Json, null, bool, real, arr, nil, cons, end, field, num, str, obj, Fields, get, or_null,
}
use infra_sync.RunHistory.Counts.{ActionCounts}
use infra_sync.Disappearance.Identities.{is_truthy}
use infra_sync.ApplyWorker.{
  Problem, worker, unexpected, start_failed, unrecorded, ChildEnd, exited, timed_out, child_result,
  child_error, child_codes, max_response, result_of, read_counts,
}
use infra_sync.ApplyWorker.Child.{
  RuntimePlan, Provider, counts_json, applied, is_expected, child_response, written, prechecked,
  planned, found, execute_child,
}

-- The counts of a plan are read back as they were.
pub read_counts-counts_json : (c : ActionCounts) → read_counts (obj (counts_json c)) ≡ ok c
unfolding read_counts counts_json get
read_counts-counts_json c = refl

-- What the supervisor makes of how `execute_child` ended: a code that it does not know, and any
-- other exception, is APPLY_FAILED.
abbrev pub reported : Result Problem Fields → Result Problem Fields
reported (ok fields) = ok fields
reported (err (worker code)) =
    err (worker (if mem_text code child_codes then code else "APPLY_FAILED"))
reported (err e) = err (worker "APPLY_FAILED")

-- What a child writes, in an output that is not too long, the supervisor reads back: the fields of
-- a result, the code of an error that it knows, and APPLY_FAILED for any other exception.
pub child_result-child_response :
    (operation : String) (r : Result Problem Fields) (size : ℕ)
    → ltb max_response size ≡ false
    → child_result operation (exited 0 size (some (child_response r))) ≡ reported r
unfolding child_result child_response child_error is_truthy get
child_result-child_response operation (ok fields) size small = ground arith
child_result-child_response operation (err (worker code)) size small =
    elim (Bool-cases (code == "")) [
      | inl blank ↦
          let nothing : code ≡ "" = ground (arith, eq_iff code "") in
          subst
            (λ c.
              child_result operation (exited 0 size (some (child_response (err (worker c)))))
              ≡ reported (err (worker c)))
            (sym nothing) (ground arith)
      | inr text ↦ ground arith
    ]
child_result-child_response operation (err unexpected) size small = ground arith
child_result-child_response operation (err (start_failed e)) size small = ground arith
child_result-child_response operation (err (unrecorded e)) size small = ground arith

abbrev is_before_write : Result Problem Fields → Bool
is_before_write (err (worker code)) = code == "FAILED_BEFORE_WRITE"
is_before_write r = false

no_result : (v : Json) → is_before_write (result_of v) ≡ false
no_result null = refl
no_result (bool b) = refl
no_result (num n) = refl
no_result (real r) = refl
no_result (str t) = refl
no_result (arr xs) = refl
no_result (obj fs) = refl

-- The answer as it is read from the two values of the response.
abbrev read_answer : Json → Json → Result Problem Fields
unfolding is_truthy child_error
read_answer error result = if is_truthy error then err (child_error error) else result_of result

before_write-error :
    (o : Option Json) (result : Json)
    → is_before_write (read_answer (or_null o) result) ≡ true
    → o ≡ some (str "FAILED_BEFORE_WRITE")
unfolding is_truthy child_error
before_write-error none result h = absurd (ground (arith, no_result result))
before_write-error (some null) result h = absurd (ground (arith, no_result result))
before_write-error (some (bool true)) result h = absurd (ground arith)
before_write-error (some (bool false)) result h = absurd (ground (arith, no_result result))
before_write-error (some (num n)) result h = ground (arith, no_result result)
before_write-error (some (real r)) result h = ground (arith, no_result result)
before_write-error (some (str t)) result h = elim (Bool-cases (not (t == ""))) [
  | inl written ↦ elim (Bool-cases (mem_text t child_codes)) [
    | inl known ↦
        let same : (t == "FAILED_BEFORE_WRITE") ≡ true = rw (written, known) at h in
        ap (λ t. some (str t)) (ground (arith, eq_iff t "FAILED_BEFORE_WRITE"))
    | inr strange ↦ absurd (cc (rw (written, strange) at h))
  ]
  | inr blank ↦ absurd (cc (rw (blank, no_result result) at h))
]
before_write-error (some (arr nil)) result h = absurd (ground (arith, no_result result))
before_write-error (some (arr (cons x xs))) result h = absurd (ground arith)
before_write-error (some (obj end)) result h = absurd (ground (arith, no_result result))
before_write-error (some (obj (field k v fs))) result h = absurd (ground arith)

before_write_read :
    (how : ChildEnd)
    → is_before_write (child_result "apply" how) ≡ true
    → (size : ℕ) × (response : Fields) × (how ≡ exited 0 size (some (obj response)))
      × (get "error" response ≡ some (str "FAILED_BEFORE_WRITE"))
unfolding child_result child_error is_truthy
before_write_read timed_out h = absurd (cc h)
before_write_read (exited returncode size none) h = absurd (ground arith)
before_write_read (exited returncode size (some null)) h = absurd (ground arith)
before_write_read (exited returncode size (some (bool b))) h = absurd (ground arith)
before_write_read (exited returncode size (some (num n))) h = absurd (ground arith)
before_write_read (exited returncode size (some (real r))) h = absurd (ground arith)
before_write_read (exited returncode size (some (str t))) h = absurd (ground arith)
before_write_read (exited returncode size (some (arr xs))) h = absurd (ground arith)
before_write_read (exited returncode size (some (obj response))) h = (
  size,
  response,
  ground arith,
  before_write-error (get "error" response) (or_null (get "result" response)) (ground arith),
)

-- The end of the child of an apply is read as FAILED_BEFORE_WRITE only where the child exited with
-- code 0 and its answer has that very error: no lost, killed or garbled child is taken for one that
-- wrote nothing.
pub child_result-before_write :
    (how : ChildEnd)
    → child_result "apply" how ≡ err (worker "FAILED_BEFORE_WRITE")
    → (size : ℕ) × (response : Fields) × (how ≡ exited 0 size (some (obj response)))
      × (get "error" response ≡ some (str "FAILED_BEFORE_WRITE"))
child_result-before_write how h = before_write_read how (ap is_before_write h)

module _ {W H : Type 0} (provider : Provider W H) where
  open provider use {discover, build_plan, sync}

  -- A property that only a confirmed write can break.
  pub record Quiet (P : W → Type 0) : Type 0 where
    pub discovers : (w : W) → P w → P (discover w).1
    pub plans : (hosts : H) (w : W) → P w → P (build_plan hosts w).1
    pub prechecks : (hosts : H) (w : W) → P w → P (sync false hosts w).1

  -- How a child ends: what an apply that succeeded has been, and what every other end but an
  -- uncertain one keeps.
  abbrev pub IsSafe : (P : W → Type 0) → Option String → Result Problem Fields × W → Type 0
  IsSafe P expected (ok fields, w) =
      (plan : RuntimePlan) × (fields ≡ applied plan)
      × (plan.apply_allowed ≡ true)
      × (expected ≡ some plan.digest)
  IsSafe P expected (err e, w) = P w ⊎ (e ≡ worker "OUTCOME_UNCERTAIN")

  module _ (P : W → Type 0) (quiet : Quiet P) where
    expected_digest :
        (expected : Option String) (plan : RuntimePlan)
        → is_expected expected plan ≡ true
        → expected ≡ some plan.digest
    expected_digest none plan h = absurd (cc h)
    expected_digest (some digest) plan h = ground (arith, eq_iff plan.digest digest)

    prechecked-IsSafe :
        (expected : Option String) (hosts : H) (plan : RuntimePlan) (r : Result Problem Unit × W)
        → plan.apply_allowed ≡ true
        → expected ≡ some plan.digest
        → P r.1
        → IsSafe P expected (prechecked provider hosts plan r)
    unfolding counts_json
    prechecked-IsSafe expected hosts plan (err e, w) allowed same p = inl p
    prechecked-IsSafe expected hosts plan (ok u, w) allowed same p = go (sync true hosts w)
      where
        go : (r : Result Problem Unit × W) → IsSafe P expected (written provider plan r)
        go (ok u, w') = (plan, refl, allowed, same)
        go (err e, w') = inr refl

    planned-IsSafe :
        (operation : String) (expected : Option String) (hosts : H)
        (r : Result Problem RuntimePlan × W)
        → (operation == "plan") ≡ false
        → P r.1
        → IsSafe P expected (planned provider operation expected hosts r)
    unfolding counts_json
    planned-IsSafe operation expected hosts (err e, w) writing p = inl p
    planned-IsSafe operation expected hosts (ok plan, w) writing p =
        elim (Bool-cases (not plan.apply_allowed || not (is_expected expected plan))) [
          | inl stale ↦ rw (writing, stale) (inl p)
          | inr current ↦
              rw (writing, current)
                (prechecked-IsSafe expected hosts plan (sync false hosts w) (ground arith)
                  (expected_digest expected plan (ground arith)) (quiet.prechecks hosts w p))
        ]

  -- Where the discovery, the planner and the prechecks keep a property of NetBox, a child for an
  -- apply keeps it too unless it succeeds or reports OUTCOME_UNCERTAIN, and it succeeds only with a
  -- plan that allows an apply and has the digest that was expected.
  pub execute_child-IsSafe :
      (P : W → Type 0) (operation : String) (expected : Option String) (w : W)
      → (operation == "plan") ≡ false
      → Quiet P
      → P w
      → IsSafe P expected (execute_child provider operation expected w)
  unfolding execute_child counts_json
  execute_child-IsSafe P operation expected w writing quiet p =
      go (discover w) (quiet.discovers w p)
    where
      go :
          (r : Result Problem H × W)
          → P r.1
          → IsSafe P expected (found provider operation expected r)
      go (err e, w') q = inl q
      go (ok hosts, w') q =
          planned-IsSafe P quiet operation expected hosts (build_plan hosts w') writing
            (quiet.plans hosts w' q)
