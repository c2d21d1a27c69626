-- ===== src/Tests/Workers.antt =====
-- Runs of the apply worker and of the schedule worker.
use infra_sync.Prelude.{
  ℕ, suc, ◌+◌, String, ◌≡◌, refl, Bool, true, false, Option, none, some, List, [], ◌∷◌, arith, ◌==◌,
  if◌then◌else◌, ok, err, to_ℕ,
}
use mathlib.Core.Path.{subst}
use infra_sync.Json.{Json, bool, num, str, obj, Fields, end, field, get}
use infra_sync.Config.{SourceConfig}
use infra_sync.Confirmation.{ConfirmationClaims, Entry, find_entry}
use infra_sync.RunHistory.Open.{IsUnique, open_count}
use infra_sync.Orchestrator as Orchestrator
use infra_sync.Orchestrator.{Outside}
use infra_sync.ApplyWorker.{
  Problem, worker, unexpected, ChildEnd, exited, resolved, Worker, child_result,
}
use infra_sync.ApplyWorker.Attempt.{State, Attempt}
use infra_sync.ApplyWorker.Supervisor.{apply}
use infra_sync.ApplyWorker.Ended.{is_unrecorded}
use infra_sync.ApplyWorker.Recorded.{open_count-apply}
use infra_sync.ApplyWorker.Kept as Kept
use infra_sync.ApplyWorker.Guards.{apply-keeps}
use infra_sync.ApplyWorker.Child.{RuntimePlan, Provider, child_response, execute_child}
use infra_sync.ApplyWorker.Child.Laws.{
  Quiet, IsSafe, execute_child-IsSafe, child_result-child_response, child_result-before_write,
}
use infra_sync.ScheduleWorker.{schedule_conflict, Request, update, handle}
use infra_sync.ScheduleWorker.Laws.{IsScheduled, update-update, handle-IsScheduled}
use infra_sync.Tests.Capabilities.{hash, token, claims, entry}
use infra_sync.Tests.Runs.{first_source, second_source, open_row, ended_row}

abbrev outside : Outside ℕ
outside = record {
  now = λ w. (20, w);
  new_uuid = λ w. (77, w);
  connects = λ w. (true, w);
  execute = λ c w. (err (record { class_name = "RuntimeError"; code = none }), w);
}

abbrev is_reviewed : Option String → Bool
is_reviewed (some digest) = digest == "d1"
is_reviewed none = false

-- A child that succeeds; the world counts the children with another digest than the reviewed one.
abbrev by : Worker ℕ Unit
by = record {
  sha256 = hash;
  registry = λ name w. (some (1, some first_source), w);
  secrets = λ config w. (resolved tt, w);
  child = λ s config operation digest w. (
    some (exited 0 20 (some (obj (field "result" (obj (field "plan_digest" (str "d1") end)) end)))),
    if is_reviewed digest then w else suc w,
  );
  open_lock = λ w. (true, w);
  lock = λ w. (true, w);
  close_lock = λ w. w;
  clock = λ w. (20, w);
  token_hex = λ w. (token, w);
  history = outside;
}

abbrev held : State ℕ
held = record { runs = record { table = ended_row ∷ []; world = 0 }; entries = entry ∷ [] }

reviewed_digest :
    (e : Entry) (claimed : ConfirmationClaims)
    → find_entry (hash token) (entry ∷ []) ≡ some e
    → e.claims ≡ claimed
    → is_reviewed (some claimed.plan_digest) ≡ true
unfolding find_entry
reviewed_digest e claimed found same =
    let stored : claims ≡ claimed = cc in
    subst (λ (c : ConfirmationClaims). is_reviewed (some c.plan_digest) ≡ true) stored refl

abbrev NoStranger : ℕ → Type 0
NoStranger w = w ≡ 0

by-Guarded : Kept.Guarded by NoStranger "pve" token (entry ∷ [])
by-Guarded = record {
  reads = λ w p. p;
  resolves = λ config w p. p;
  opens = λ w p. p;
  locks = λ w p. p;
  closes = λ w p. p;
  tells = λ w p. p;
  stamps = λ w p. p;
  names = λ w p. p;
  connects = λ w p. p;
  applies = λ claimed e config s u v w found same named opened got read own enabled told p.
      rw (reviewed_digest e claimed found same) p;
}

apply-keeps_example : (apply by true "pve" token held).1.runs.world ≡ 0
apply-keeps_example = apply-keeps by NoStranger true "pve" token held by-Guarded refl

open_count-apply_example :
    IsUnique (apply by true "pve" token held).1.runs.table
    × (open_count (apply by true "pve" token held).1.runs.table
        ≡ to_ℕ (is_unrecorded (apply by true "pve" token held).0) + open_count held.runs.table)
open_count-apply_example = open_count-apply by true "pve" token held (refl, tt)

abbrev plan : RuntimePlan
plan = record {
  apply_allowed = true;
  digest = "d1";
  planner_version = "1";
  canonical = end;
  actions = some "CREATE" ∷ [];
}

-- The world counts the confirmed writes, of which the first one fails.
abbrev provider : Provider ℕ Unit
provider = record {
  discover = λ w. (ok tt, w);
  build_plan = λ hosts w. (ok plan, w);
  sync = λ confirmed hosts w. if confirmed then (err unexpected, suc w) else (ok tt, w);
}

provider-Quiet : Quiet provider (λ w. w ≡ 0)
provider-Quiet = record { discovers = λ w p. p; plans = λ hosts w p. p; prechecks = λ hosts w p. p }

execute_child-IsSafe_example :
    IsSafe provider (λ w. w ≡ 0) (some "d1") (execute_child provider "apply" (some "d1") 0)
execute_child-IsSafe_example =
    execute_child-IsSafe provider (λ w. w ≡ 0) "apply" (some "d1") 0 refl provider-Quiet refl

child_result-child_response_example :
    child_result "apply" (exited 0 40 (some (child_response (err (worker "PLAN_STALE")))))
    ≡ err (worker "PLAN_STALE")
child_result-child_response_example =
    child_result-child_response "apply" (err (worker "PLAN_STALE")) 40 refl

abbrev failed_child : ChildEnd
failed_child = exited 0 40 (some (obj (field "error" (str "FAILED_BEFORE_WRITE") end)))

child_result-before_write_example :
    (size : ℕ) × (response : Fields) × (failed_child ≡ exited 0 size (some (obj response)))
    × (get "error" response ≡ some (str "FAILED_BEFORE_WRITE"))
unfolding child_result infra_sync.Disappearance.Identities.is_truthy
    infra_sync.ApplyWorker.child_error get
child_result-before_write_example = child_result-before_write failed_child refl

abbrev request : Request
request = record {
  source_instance = "pve";
  sync_enabled = true;
  sync_interval_seconds = 3600;
  expected_sync_enabled = true;
  expected_sync_interval_seconds = 60;
}

abbrev rival : Request
rival = record request { sync_enabled = false; sync_interval_seconds = 7200 }

abbrev sources : List SourceConfig
sources = first_source ∷ second_source ∷ []

update-update_example :
    update true rival (update true request sources).1
    ≡ (err schedule_conflict, (update true request sources).1)
unfolding update
update-update_example =
    update-update request rival true sources _ refl
      (record { source = refl; enabled = refl; interval = refl }) refl

abbrev message : Json
message = obj (
    field "operation" (str "update_schedule") (
      field "source_instance" (str "pve") (
        field "sync_enabled" (bool true) (
          field "sync_interval_seconds" (num 3600) (
            field "expected_sync_enabled" (bool true)
              (field "expected_sync_interval_seconds" (num 60) end))))))

handle-IsScheduled_example : IsScheduled (handle true message sources).1
handle-IsScheduled_example =
    handle-IsScheduled true message sources (omega arith, (omega arith, tt))

-- A run that was started, and an attempt whose child was lost.
abbrev lost_attempt : Attempt
lost_attempt = record {
  claims = none;
  apply_started = true;
  outcome = err (worker "OUTCOME_UNCERTAIN");
}

abbrev recording_runs : Orchestrator.State ℕ
recording_runs = record { table = open_row ∷ ended_row ∷ []; world = 0 }
