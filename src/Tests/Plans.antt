-- ===== src/Tests/Plans.antt =====
-- Runs of the runtime plan.
use infra_sync.Prelude.{ℕ, suc, String, ◌≡◌, refl, true, false, List, [], ◌∷◌, Result, ok}
use infra_sync.Json.{null, num, str}
use infra_sync.SyncPlan.{
  ReviewItem, SyncPlan, Mutation, conflict, would_create, plan_from_review, apply_allowed,
}
use infra_sync.SyncPlan.Mutations.{build_runtime_plan}
use infra_sync.SyncPlan.Laws.{apply_allowed-build_runtime_plan}
use infra_sync.Tests.{print, sort_key}
use infra_sync.Tests.Runs.{first_source}

abbrev fresh : ReviewItem
fresh = record {
  object_kind = "qemu";
  name = "Web";
  external_id = "101";
  classification = would_create;
  reason_code = "NEW";
  reason = "New.";
  future_action = "create";
  matched_object_id = null;
  matched_object_name = null;
}

abbrev twin : ReviewItem
twin = record fresh {
  name = "Twin";
  external_id = "102";
  classification = conflict;
  reason_code = "TWO";
  reason = "Two objects.";
  future_action = "none";
  matched_object_id = num 7;
  matched_object_name = str "Twin";
}

-- The world counts the runs of the executors.
abbrev execute : ℕ → Result String (List Mutation) × ℕ
execute w = (ok [], suc w)

abbrev review : List ReviewItem
review = fresh ∷ twin ∷ []

abbrev plan : SyncPlan
plan = plan_from_review (λ v. "hash") print sort_key (λ a b. true) review first_source

apply_allowed-build_runtime_plan_example :
    (apply_allowed plan ≡ false)
    × ((build_runtime_plan
          (λ v. "hash")
          print
          sort_key
          (λ a b. true)
          execute
          review
          first_source
          0).1
        ≡ 0)
unfolding build_runtime_plan
apply_allowed-build_runtime_plan_example =
    apply_allowed-build_runtime_plan (λ v. "hash") print sort_key (λ a b. true) execute review
      first_source 0 plan refl
