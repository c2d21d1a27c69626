-- ===== src/ApplyWorker/Child.antt =====
-- `execute_child` and `child_main`: what runs in the child process. The discovery, the planner and
-- the two writers (`apply_full_sync` and `execute_esxi_runtime`) are parameters.
pub mod Laws
pub mod Proxmox
use infra_sync.Prelude.{
  ℕ, String, Bool, true, false, not, ◌||◌, Option, none, some, List, [], ◌∷◌, ◌==◌, if◌then◌else◌,
  Result, ok, err,
}
use infra_sync.Json.{Json, num, str, obj, Fields, end, field, put}
use infra_sync.RunHistory.Counts.{ActionCounts, from_items}
use infra_sync.ApplyWorker.{Problem, worker, unexpected, start_failed, unrecorded}

-- A plan, with its canonical dictionary and the actions of its items.
pub record RuntimePlan : Type 0 where
  pub apply_allowed : Bool
  pub digest : String
  pub planner_version : String
  pub canonical : Fields
  pub actions : List (Option String)

-- `sync` is the writer for the type of the source, with `confirmed`.
pub record Provider (W H : Type 0) : Type 0 where
  pub discover : W → Result Problem H × W
  pub build_plan : H → W → Result Problem RuntimePlan × W
  pub sync : Bool → H → W → Result Problem (Unit {0}) × W

-- `ActionCounts.from_items(plan.items).__dict__`
unfoldable pub counts_json : ActionCounts → Fields
counts_json c = field "create" (num c.create) (
    field "update" (num c.update) (
      field "no_change" (num c.no_change) (
        field "review_required" (num c.review_required) (
          field "blocked" (num c.blocked) (
            field "ignored" (num c.ignored) (
              field "unsupported" (num c.unsupported)
                (field "retain_only" (num c.retain_only) end)))))))

abbrev pub applied : RuntimePlan → Fields
unfolding counts_json
applied plan = field "status" (str "SUCCEEDED") (
    field "plan_digest" (str plan.digest) (
      field "planner_version" (str plan.planner_version)
        (field "action_counts" (obj (counts_json (from_items plan.actions))) end)))

abbrev pub is_expected : Option String → RuntimePlan → Bool
is_expected none plan = false
is_expected (some digest) plan = plan.digest == digest

-- `child_main`: the JSON that is written.
unfoldable pub child_response : Result Problem Fields → Json
child_response (ok fields) = obj (field "result" (obj fields) end)
child_response (err (worker code)) = obj (field "error" (str code) end)
child_response (err e) = obj (field "error" (str "APPLY_FAILED") end)

module _ {W H : Type 0} (provider : Provider W H) where
  open provider use {discover, build_plan, sync}

  abbrev pub written : RuntimePlan → Result Problem (Unit {0}) × W → Result Problem Fields × W
  unfolding counts_json
  written plan (ok u, w) = (ok (applied plan), w)
  written plan (err e, w) = (err (worker "OUTCOME_UNCERTAIN"), w)

  -- The prechecks, and then the write.
  abbrev pub prechecked :
      H → RuntimePlan → Result Problem (Unit {0}) × W → Result Problem Fields × W
  unfolding counts_json
  prechecked hosts plan (err e, w) = (err (worker "FAILED_BEFORE_WRITE"), w)
  prechecked hosts plan (ok u, w) = written plan (sync true hosts w)

  abbrev pub planned :
      String → Option String → H → Result Problem RuntimePlan × W → Result Problem Fields × W
  unfolding counts_json
  planned operation expected hosts (err e, w) = (err e, w)
  planned operation expected hosts (ok plan, w) =
      if operation == "plan"
      then (ok (put "digest" (str plan.digest) plan.canonical), w)
      else if not plan.apply_allowed || not (is_expected expected plan)
      then (err (worker "PLAN_STALE"), w)
      else prechecked hosts plan (sync false hosts w)

  abbrev pub found : String → Option String → Result Problem H × W → Result Problem Fields × W
  unfolding counts_json
  found operation expected (err e, w) = (err e, w)
  found operation expected (ok hosts, w) = planned operation expected hosts (build_plan hosts w)

  unfoldable pub execute_child : String → Option String → W → Result Problem Fields × W
  unfolding counts_json
  execute_child operation expected w = found operation expected (discover w)
