-- ===== src/ApplyWorker.antt =====
-- netbox_sync/apply_worker.py: the supervisor of confirmed applies, which runs them in a child
-- process. The registry, the secrets, the lock file, the child, the clock and the connection to the
-- run history are the parameter `Worker`; the sockets and the process itself are left out.
pub mod Attempt
pub mod Conclude
pub mod Supervisor
pub mod Child
pub mod Ended
pub mod Recorded
pub mod Failures
pub mod Kept
pub mod Settled
pub mod Guards
use infra_sync.Prelude.{
  ℕ, ◌*◌, String, Bool, true, false, not, ◌&&◌, ◌||◌, Option, none, some, List, [], ◌∷◌, ◌==◌, eqb,
  ltb, if◌then◌else◌, mem_text, Result, ok, err, ◌>>=◌,
}
use infra_sync.Json.{Json, null, bool, num, real, str, arr, obj, Fields, end, field, get, or_null}
use infra_sync.Config.{SourceConfig}
use infra_sync.Disappearance.Identities.{is_truthy}
use infra_sync.RunHistory.{RunError}
use infra_sync.RunHistory.Counts.{ActionCounts}
use infra_sync.Orchestrator.{Outside}

-- What is raised: `ApplyWorkerError(code)`, any other exception, or one of the run history, when
-- the run was started or when its end was recorded.
pub data Problem : Type 0 where
  worker : String → Problem
  unexpected : Problem
  start_failed unrecorded : RunError → Problem

-- How a child ends: its return code, the size of its output and the JSON in it, if it is any.
pub data ChildEnd : Type 0 where
  timed_out : ChildEnd
  exited : (returncode size : ℕ) → Option Json → ChildEnd

-- `resolve_credentials` and `_bounded_secret`: `unavailable` is a `SecretResolutionError` or an
-- `OSError`, `broken` any other exception.
pub data Secrets (S : Type 0) : Type 0 where
  resolved : S → Secrets S
  unavailable broken : Secrets S

-- The registry is `none` where it cannot be read, else its schema version and the record. A `false`
-- of the lock file or the lock is an `OSError`, a `none` of the child an exception.
pub record Worker (W S : Type 0) : Type 0 where
  pub sha256 : String → String
  pub registry : String → W → Option (ℕ × Option SourceConfig) × W
  pub secrets : SourceConfig → W → Secrets S × W
  pub child : S → SourceConfig → String → Option String → W → Option ChildEnd × W
  pub open_lock : W → Bool × W
  pub lock : W → Bool × W
  pub close_lock : W → W
  pub clock : W → ℕ × W
  pub token_hex : W → String × W
  pub history : Outside W

abbrev pub max_response : ℕ
max_response = 8 * 1024 * 1024

-- `'FAILED_BEFORE_WRITE' if operation == 'plan' else 'OUTCOME_UNCERTAIN'`
abbrev pub lost : String → Problem
lost operation = worker (if operation == "plan" then "FAILED_BEFORE_WRITE" else "OUTCOME_UNCERTAIN")

abbrev pub child_codes : List String
child_codes =
    "PLAN_STALE" ∷ "PLAN_BLOCKED" ∷ "FAILED_BEFORE_WRITE" ∷ "OUTCOME_UNCERTAIN" ∷ "APPLY_FAILED"
    ∷ "SOURCE_UNSUPPORTED" ∷ []

-- `not set(response) - names`
abbrev pub has_only : List String → Fields → Bool
has_only names end = true
has_only names (field k v fs) = mem_text k names && has_only names fs

-- `response['error'] in allowed`; a list or an object cannot be looked up in a set.
unfoldable pub child_error : Json → Problem
child_error (str code) = worker (if mem_text code child_codes then code else "APPLY_FAILED")
child_error (arr xs) = unexpected
child_error (obj fs) = unexpected
child_error v = worker "APPLY_FAILED"

abbrev pub result_of : Json → Result Problem Fields
result_of (obj fs) = ok fs
result_of v = err (worker "APPLY_FAILED")

abbrev pub answered : Fields → Result Problem Fields
unfolding is_truthy child_error
answered response =
    if is_truthy (or_null (get "error" response))
    then err (child_error (or_null (get "error" response)))
    else result_of (or_null (get "result" response))

abbrev pub decoded : String → Option Json → Result Problem Fields
decoded operation (some (obj response)) =
    if not (has_only ("result" ∷ "error" ∷ []) response)
    then err (lost operation)
    else answered response
decoded operation output = err (lost operation)

-- What `_child` makes of the end of the process.
unfoldable pub child_result : String → ChildEnd → Result Problem Fields
child_result operation timed_out = err (lost operation)
child_result operation (exited returncode size output) =
    if not (eqb returncode 0) || ltb max_response size
    then err (lost operation)
    else decoded operation output

abbrev count_names : List String
count_names =
    "create" ∷ "update" ∷ "no_change" ∷ "review_required" ∷ "blocked" ∷ "ignored" ∷ "unsupported"
    ∷ "retain_only" ∷ []

-- `ActionCounts(**counts)` takes the names of its fields, and any value.
abbrev pub is_counts : Json → Bool
is_counts (obj fs) = has_only count_names fs
is_counts v = false

abbrev count_of : String → Fields → Result Problem ℕ
count_of key fs = elim (get key fs) [ none ↦ ok 0 | some (num n) ↦ ok n | some _ ↦ err unexpected ]

-- `finish_run` accepts natural numbers only.
unfoldable pub read_counts : Json → Result Problem ActionCounts
read_counts (obj fs) = do
  create ← count_of "create" fs
  update ← count_of "update" fs
  no_change ← count_of "no_change" fs
  review_required ← count_of "review_required" fs
  blocked ← count_of "blocked" fs
  ignored ← count_of "ignored" fs
  unsupported ← count_of "unsupported" fs
  retain_only ← count_of "retain_only" fs
  ok (record {
    create = create;
    update = update;
    no_change = no_change;
    review_required = review_required;
    blocked = blocked;
    ignored = ignored;
    unsupported = unsupported;
    retain_only = retain_only;
  })
read_counts v = err unexpected

-- The planner version, where `finish_run` can take it.
abbrev pub read_version : Json → Result Problem (Option String)
read_version null = ok none
read_version (str v) = ok (some v)
read_version v = err unexpected

-- `result.pop(key, None)`
abbrev pub popped : String → Fields → Fields
popped key end = end
popped key (field k v fs) = let rest = popped key fs in if k == key then rest else field k v rest
