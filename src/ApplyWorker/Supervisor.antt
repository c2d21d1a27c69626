-- ===== src/ApplyWorker/Supervisor.antt =====
-- `ApplySupervisor`: `prepare` and `apply`.
use infra_sync.Prelude.{
  ℕ, String, Bool, true, false, Option, none, some, List, ◌==◌, Result, ok, err, ◌>>=◌, ◌>>◌,
  require,
}
use infra_sync.Json.{Json, str, Fields, get}
use infra_sync.Config.{SourceConfig}
use infra_sync.Confirmation.{ConfirmationClaims, ConfirmationError, Entry, issue}
use infra_sync.RunHistory.{RunError, SyncRun, manual, start_run}
use infra_sync.Orchestrator as Orchestrator
use infra_sync.Orchestrator.{transacted, finish}
use infra_sync.Disappearance.Identities.{is_truthy}
use infra_sync.ApplyWorker.{Problem, worker, unexpected, start_failed, Worker}
use infra_sync.ApplyWorker.Attempt.{State, source, run_child, attempt}
use infra_sync.ApplyWorker.Conclude.{Applied, conclude}

-- A text of the plan; a plan without it raises a `KeyError`.
abbrev pub text_in : String → Fields → Result Problem String
text_in key fs = elim (get key fs) [ some (str text) ↦ ok text | _ ↦ err unexpected ]

abbrev pub plan_claims : String → SourceConfig → String → Fields → Result Problem ConfirmationClaims
plan_claims instance_name config digest plan = do
  planner_version ← text_in "planner_version" plan
  source_fingerprint ← text_in "source_fingerprint" plan
  target_fingerprint ← text_in "target_fingerprint" plan
  ok (record {
    source_instance = instance_name;
    source_id = config.id;
    plan_digest = digest;
    planner_version = planner_version;
    source_fingerprint = source_fingerprint;
    target_fingerprint = target_fingerprint;
  })

abbrev pub value_in : String → Fields → Result Problem Json
value_in key fs = elim (get key fs) [ some v ↦ ok v | none ↦ err unexpected ]

abbrev pub text_is : String → Json → Bool
text_is digest (str text) = text == digest
text_is digest _ = false

-- The checks of `prepare` on the plan of the child.
unfoldable pub confirmable :
    String → SourceConfig → String → Fields → Result Problem ConfirmationClaims
unfolding is_truthy
confirmable instance_name config digest plan = do
  allowed ← value_in "apply_allowed" plan
  require (is_truthy allowed) (worker "PLAN_BLOCKED")
  planned ← value_in "digest" plan
  require (text_is digest planned) (worker "PLAN_STALE")
  plan_claims instance_name config digest plan

abbrev pub issued : Result ConfirmationError String → Result Problem String
issued (ok token) = ok token
issued (err e) = err unexpected

module _ {W S : Type 0} (by : Worker W S) where
  open by use {
    sha256, registry, secrets, child, open_lock, lock, close_lock, clock, token_hex, history,
  }

  -- `self._runs.start_run(instance, config.source_type, RunTrigger.MANUAL, 'web/manual')`
  unfoldable pub start_manual :
      String → SourceConfig → Orchestrator.State W → Result RunError SyncRun × Orchestrator.State W
  start_manual instance_name config s =
      let (identifier, w) = history.new_uuid s.world in
      let (started, w') = history.now w in
      transacted history s s.world
        (start_run instance_name config.source_type manual "web/manual" none none identifier started
          s.table)
        (history.connects w')

  abbrev pub with_entries :
      List Entry → Result Problem Applied × Orchestrator.State W → Result Problem Applied × State W
  with_entries entries (r, runs) = (r, record { runs = runs; entries = entries })

  unfoldable pub apply_run :
      String → String → Option SyncRun → State W → Result Problem Applied × State W
  unfolding attempt conclude
  apply_run instance_name token run s =
      let (a, s') = attempt by instance_name token s in
      with_entries s'.entries (conclude by run a s'.runs)

  abbrev pub after_start :
      String
      → String
      → List Entry
      → Result RunError SyncRun × Orchestrator.State W
      → Result Problem Applied × State W
  unfolding apply_run
  after_start instance_name token entries (err e, runs) =
      (err (start_failed e), record { runs = runs; entries = entries })
  after_start instance_name token entries (ok run, runs) =
      apply_run instance_name token (some run) (record { runs = runs; entries = entries })

  abbrev pub for_source :
      Bool
      → String
      → String
      → Result Problem SourceConfig
      → State W
      → Result Problem Applied × State W
  unfolding start_manual apply_run
  for_source with_history instance_name token (err e) s = (err e, s)
  for_source true instance_name token (ok config) s =
      after_start instance_name token s.entries (start_manual instance_name config s.runs)
  for_source false instance_name token (ok config) s = apply_run instance_name token none s

  -- `apply`; `with_history` is whether a repository was given.
  unfoldable pub apply : Bool → String → String → State W → Result Problem Applied × State W
  unfolding source
  apply with_history instance_name token s =
      let (r, w) = source by instance_name s.runs.world in
      for_source with_history instance_name token r
        (record s { runs = record s.runs { world = w } })

  abbrev pub issue_token :
      (ttl maximum : ℕ)
      → Result Problem ConfirmationClaims
      → State W
      → Result Problem String × State W
  issue_token ttl maximum (err e) s = (err e, s)
  issue_token ttl maximum (ok claims) s =
      let (token, w) = token_hex s.runs.world in
      let (time, w') = clock w in
      let (r, entries) = issue sha256 ttl maximum token time claims s.entries in
      (issued r, record { runs = record s.runs { world = w' }; entries = entries })

  abbrev pub planned_by :
      (ttl maximum : ℕ)
      → String
      → SourceConfig
      → String
      → Result Problem Fields
      → State W
      → Result Problem String × State W
  unfolding confirmable
  planned_by ttl maximum instance_name config digest (err e) s = (err e, s)
  planned_by ttl maximum instance_name config digest (ok plan) s =
      issue_token ttl maximum (confirmable instance_name config digest plan) s

  abbrev pub plan_for :
      (ttl maximum : ℕ)
      → String
      → String
      → Result Problem SourceConfig
      → State W
      → Result Problem String × State W
  unfolding run_child
  plan_for ttl maximum instance_name digest (err e) s = (err e, s)
  plan_for ttl maximum instance_name digest (ok config) s =
      let (r, w) = run_child by config "plan" none s.runs.world in
      planned_by ttl maximum instance_name config digest r
        (record s { runs = record s.runs { world = w } })

  -- `prepare`: the token, which is good for 300 seconds.
  unfoldable pub prepare :
      (ttl maximum : ℕ) → String → String → State W → Result Problem String × State W
  unfolding source
  prepare ttl maximum instance_name digest s =
      let (r, w) = source by instance_name s.runs.world in
      plan_for ttl maximum instance_name digest r (record s { runs = record s.runs { world = w } })
