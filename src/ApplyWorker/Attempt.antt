-- ===== src/ApplyWorker/Attempt.antt =====
-- The body of the outer `try` of `ApplySupervisor.apply`: consume, lock, reload and run the child.
use infra_sync.Prelude.{
  ℕ, String, Bool, true, false, not, Option, none, some, List, ◌==◌, eqb, if◌then◌else◌, Result, ok,
  err,
}
use infra_sync.Json.{str, Fields, get}
use infra_sync.Config.{SourceConfig}
use infra_sync.Confirmation.{
  ConfirmationClaims, ConfirmationError, capacity_exceeded, invalid, expired, source_mismatch,
  unicode_encode_error, type_error, Entry, consume,
}
use infra_sync.Orchestrator as Orchestrator
use infra_sync.Orchestrator.{transacted, finish}
use infra_sync.ApplyWorker.{
  Problem, worker, unexpected, Secrets, resolved, unavailable, broken, ChildEnd, Worker,
  child_result,
}

-- The table of runs and the world, and the confirmations that are held.
pub record State (W : Type 0) : Type 0 where
  pub runs : Orchestrator.State W
  pub entries : List Entry

-- What the handlers of `apply` read: the claims, if they were consumed, whether the child was
-- reached, and how it went.
pub record Attempt : Type 0 where
  pub claims : Option ConfirmationClaims
  pub apply_started : Bool
  pub outcome : Result Problem Fields

-- An error of `ConfirmationStore`, by its code where it has one.
abbrev pub confirmation_problem : ConfirmationError → Problem
confirmation_problem capacity_exceeded = worker "CONFIRMATION_CAPACITY_EXCEEDED"
confirmation_problem invalid = worker "CONFIRMATION_INVALID"
confirmation_problem expired = worker "CONFIRMATION_EXPIRED"
confirmation_problem source_mismatch = worker "CONFIRMATION_SOURCE_MISMATCH"
confirmation_problem unicode_encode_error = unexpected
confirmation_problem type_error = unexpected

abbrev enabled_only : Option SourceConfig → Result Problem SourceConfig
enabled_only none = err (worker "SOURCE_NOT_FOUND")
enabled_only (some config) =
    if not config.enabled then err (worker "SOURCE_DISABLED") else ok config

abbrev pub registered : Option (ℕ × Option SourceConfig) → Result Problem SourceConfig
registered none = err (worker "REGISTRY_UNAVAILABLE")
registered (some (version, found)) =
    if not (eqb version 1) then err (worker "REGISTRY_UNAVAILABLE") else enabled_only found

-- A result for another digest may stand for writes that were made.
abbrev pub same_digest : ConfirmationClaims → Result Problem Fields → Result Problem Fields
same_digest claims (err e) = err e
same_digest claims (ok fields) = elim (get "plan_digest" fields) [
  | some (str digest) ↦
      if digest == claims.plan_digest then ok fields else err (worker "OUTCOME_UNCERTAIN")
  | _ ↦ err (worker "OUTCOME_UNCERTAIN")
]

abbrev pub attempt_of : ConfirmationClaims → Bool → Result Problem Fields → Attempt
attempt_of claims started outcome = record {
  claims = some claims;
  apply_started = started;
  outcome = outcome;
}

abbrev pub unlike : ConfirmationClaims → SourceConfig → Bool
unlike claims config = not (config.id == claims.source_id)

module _ {W S : Type 0} (by : Worker W S) where
  open by use {sha256, registry, secrets, child, open_lock, lock, close_lock, clock, history}

  -- `_source`
  unfoldable pub source : String → W → Result Problem SourceConfig × W
  source instance_name w = let (r, w') = registry instance_name w in (registered r, w')

  abbrev pub ended : String → Option ChildEnd × W → Result Problem Fields × W
  ended operation (none, w) = (err unexpected, w)
  ended operation (some how, w) = (child_result operation how, w)

  abbrev pub with_secrets :
      SourceConfig → String → Option String → Secrets S × W → Result Problem Fields × W
  with_secrets config operation digest (unavailable, w) = (err (worker "CREDENTIAL_UNAVAILABLE"), w)
  with_secrets config operation digest (broken, w) = (err unexpected, w)
  with_secrets config operation digest (resolved s, w) =
      ended operation (child s config operation digest w)

  -- `self._child(self._payload(config, operation, digest))`
  unfoldable pub run_child : SourceConfig → String → Option String → W → Result Problem Fields × W
  unfolding child_result
  run_child config operation digest w = with_secrets config operation digest (secrets config w)

  -- What is done under the lock, with the source read again.
  abbrev pub reloaded : ConfirmationClaims → Result Problem SourceConfig × W → Attempt × W
  unfolding run_child
  reloaded claims (err e, w) = (attempt_of claims false (err e), w)
  reloaded claims (ok config, w) =
      if unlike claims config
      then (attempt_of claims false (err (worker "PLAN_STALE")), w)
      else (let (r, w') = run_child config "apply" (some claims.plan_digest) w in
          (attempt_of claims true (same_digest claims r), w'))

  abbrev pub locked : String → ConfirmationClaims → Bool × W → Attempt × W
  unfolding source
  locked instance_name claims (false, w) =
      (attempt_of claims false (err (worker "APPLY_LOCKED")), w)
  locked instance_name claims (true, w) = reloaded claims (source instance_name w)

  abbrev pub closed : Attempt × W → Attempt × W
  closed (a, w) = (a, close_lock w)

  abbrev pub opened : String → ConfirmationClaims → Bool × W → Attempt × W
  opened instance_name claims (false, w) =
      (attempt_of claims false (err (worker "FAILED_BEFORE_WRITE")), w)
  opened instance_name claims (true, w) = closed (locked instance_name claims (lock w))

  abbrev pub consumed : String → Result ConfirmationError ConfirmationClaims → W → Attempt × W
  consumed instance_name (err e) w =
      (record { claims = none; apply_started = false; outcome = err (confirmation_problem e) }, w)
  consumed instance_name (ok claims) w = opened instance_name claims (open_lock w)

  -- The body of the outer `try` up to the result of the child.
  unfoldable pub attempt : String → String → State W → Attempt × State W
  attempt instance_name token s =
      let (time, w) = clock s.runs.world in
      let (r, entries) = consume sha256 token instance_name time s.entries in
      let (a, w') = consumed instance_name r w in
      (a, record { runs = record s.runs { world = w' }; entries = entries })
