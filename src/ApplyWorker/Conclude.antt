-- ===== src/ApplyWorker/Conclude.antt =====
-- What `ApplySupervisor.apply` records of an attempt, and what it returns or raises.
use infra_sync.Prelude.{
  ℕ, String, Bool, not, Option, none, some, if◌then◌else◌, Result, ok, err, ◌>>=◌,
}
use infra_sync.Json.{Json, str, obj, Fields, end, get, or_null}
use infra_sync.Confirmation.{ConfirmationClaims}
use infra_sync.RunHistory.{RunError, SyncRun, Outcome}
use infra_sync.RunHistory.Counts.{ActionCounts, no_counts}
use infra_sync.RunHistory.Errors.{succeeded, safe_error_code, safe_error_message, terminal_status}
use infra_sync.Orchestrator as Orchestrator
use infra_sync.Orchestrator.{transacted, finish}
use infra_sync.ApplyWorker.{
  Problem, worker, unexpected, unrecorded, Worker, is_counts, read_counts, read_version, popped,
}
use infra_sync.ApplyWorker.Attempt.{Attempt}

abbrev pub digest_of : Option ConfirmationClaims → Option String
digest_of none = none
digest_of (some claims) = some claims.plan_digest

abbrev pub version_of : Option ConfirmationClaims → Option String
version_of none = none
version_of (some claims) = some claims.planner_version

abbrev pub failure_record : String → Option ConfirmationClaims → Outcome
failure_record code claims = record {
  status = terminal_status code;
  counts = no_counts;
  plan_digest = digest_of claims;
  planner_version = version_of claims;
  error_code = some code;
  error_message_safe = some (safe_error_message code);
}

abbrev pub recorded : Problem → Result RunError SyncRun → Problem
recorded e (ok row) = e
recorded e (err r) = unrecorded r

abbrev pub late : Bool → String
late apply_started = if apply_started then "OUTCOME_UNCERTAIN" else "APPLY_FAILED"

abbrev pub success_record : ActionCounts → Option String → Option String → Outcome
success_record counts digest version = record {
  status = succeeded;
  counts = counts;
  plan_digest = digest;
  planner_version = version;
  error_code = none;
  error_message_safe = none;
}

abbrev pub shown : Fields → Fields
shown fields = popped "planner_version" (popped "action_counts" fields)

-- What is returned, with the id of the run, if it was recorded.
abbrev pub Applied : Type 0
Applied = Fields × Option ℕ

abbrev pub counts_given : Fields → Json
counts_given fields = elim (get "action_counts" fields) [ none ↦ obj end | some counts ↦ counts ]

-- `result['plan_digest']`, which is the text that was compared.
abbrev pub digest_in : Fields → Option String
digest_in fields = elim (get "plan_digest" fields) [ some (str digest) ↦ some digest | _ ↦ none ]

abbrev pub success_outcome : Fields → Result Problem Outcome
unfolding read_counts
success_outcome fields = do
  counts ← read_counts (counts_given fields)
  version ← read_version (or_null (get "planner_version" fields))
  ok (success_record counts (digest_in fields) version)

abbrev pub finished_as : Fields → ℕ → Result RunError SyncRun → Result Problem Applied
finished_as fields identifier (ok row) = ok (shown fields, some identifier)
finished_as fields identifier (err e) = err unexpected

module _ {W S : Type 0} (by : Worker W S) where
  open by use {sha256, registry, secrets, child, open_lock, lock, close_lock, clock, history}

  abbrev pub raise_recorded :
      Option SyncRun
      → String
      → Option ConfirmationClaims
      → Problem
      → Orchestrator.State W
      → Problem × Orchestrator.State W
  raise_recorded none code claims e s = (e, s)
  raise_recorded (some run) code claims e s =
      let (r, s') = finish history run.run_id (failure_record code claims) s in (recorded e r, s')

  -- The two handlers.
  unfoldable pub handled :
      Option SyncRun → Attempt → Problem → Orchestrator.State W → Problem × Orchestrator.State W
  handled run a (worker code) s =
      raise_recorded run (safe_error_code (some code)) a.claims (worker code) s
  handled run a e s =
      raise_recorded run (late a.apply_started) a.claims (worker (late a.apply_started)) s

  -- A refusal of the counts or the version comes after the clock was read.
  abbrev pub finish_success :
      Fields
      → ℕ
      → Result Problem Outcome
      → Orchestrator.State W
      → Result Problem Applied × Orchestrator.State W
  finish_success fields identifier (err e) s =
      let (time, w) = history.now s.world in (err e, record s { world = w })
  finish_success fields identifier (ok o) s =
      let (r, s') = finish history identifier o s in (finished_as fields identifier r, s')

  -- The end of the outer `try`.
  unfoldable pub succeed :
      Option SyncRun → Fields → Orchestrator.State W → Result Problem Applied × Orchestrator.State W
  succeed run fields s =
      if not (is_counts (counts_given fields)) then (err unexpected, s) else elim run [
        | none ↦ (ok (shown fields, none), s)
        | some row ↦ finish_success fields row.run_id (success_outcome fields) s
      ]

  abbrev pub raised_by :
      Problem × Orchestrator.State W → Result Problem Applied × Orchestrator.State W
  raised_by (e, s) = (err e, s)

  unfoldable pub or_handled :
      Option SyncRun
      → Attempt
      → Result Problem Applied × Orchestrator.State W
      → Result Problem Applied × Orchestrator.State W
  unfolding handled
  or_handled run a (ok applied, s) = (ok applied, s)
  or_handled run a (err e, s) = raised_by (handled run a e s)

  abbrev pub tried :
      Option SyncRun
      → Attempt
      → Orchestrator.State W
      → Result Problem Applied × Orchestrator.State W
  unfolding succeed
  tried run a s = elim a.outcome [ ok fields ↦ succeed run fields s | err e ↦ (err e, s) ]

  -- From the end of the attempt on.
  unfoldable pub conclude :
      Option SyncRun
      → Attempt
      → Orchestrator.State W
      → Result Problem Applied × Orchestrator.State W
  unfolding or_handled
  conclude run a s = or_handled run a (tried run a s)
