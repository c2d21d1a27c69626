-- ===== src/SyncPlan/Laws.antt =====
-- What blocks a plan.
use infra_sync.Prelude.{
  String, ◌≡◌, ◌==◌, refl, sym, ap, ◌∙◌, Bool, true, false, not, ◌&&◌, List, [], ◌∷◌, ◌++◌, map,
  if◌then◌else◌, any, any-append, keep, arith, Result, Option, none, ok, err, >>=-eq-ok, ok_eq,
  Bool-cases, inl, inr,
}
use mathlib.Core.Path.{subst}
use infra_sync.Prelude.Sorting.{any-sort_by}
use infra_sync.Json.{Json}
use infra_sync.Config.{SourceConfig}
use infra_sync.SyncPlan.{
  SyncAction, Classification, managed, needs_review, would_create, is_ignored, is_unsupported,
  conflict, unchanged, ReviewItem, SyncPlanItem, SyncPlan, Mutation, apply_allowed, is_blocked,
  create, update_object, no_change, review_required, blocked, ignored, unsupported, retain_only,
  is_no_change, action_of, item_of, retained, value_of, review_endpoint, sort_items, is_kept,
  plan_from_review,
}
use infra_sync.SyncPlan.Mutations.{
  PlanTypeError, mutation_item, mutation_items, is_unmutated, identities_in, plan_from_mutations,
  planned, build_runtime_plan,
}

abbrev pub is_conflict : ReviewItem → Bool
is_conflict r = elim r.classification [ conflict ↦ true | _ ↦ false ]

blocked-item_of : (r : ReviewItem) → is_blocked (item_of r) ≡ is_conflict r
unfolding item_of action_of
blocked-item_of r = go r.classification refl
  where
    go : (c : Classification) → r.classification ≡ c → is_blocked (item_of r) ≡ is_conflict r
    go managed e = rw e refl
    go needs_review e = rw e refl
    go would_create e = rw e refl
    go is_ignored e = rw e refl
    go is_unsupported e = rw e refl
    go conflict e = rw e refl
    go unchanged e = rw e refl

blocked-review :
    (review : List ReviewItem) (config : SourceConfig)
    → any is_blocked (map item_of review ++ retained config ∷ []) ≡ any is_conflict review
blocked-review [] config = refl
blocked-review (r ∷ review) config = rw (blocked-item_of r, blocked-review review config) refl

blocked-sort_items :
    (items : List SyncPlanItem) → any is_blocked (sort_items items) ≡ any is_blocked items
unfolding sort_items
blocked-sort_items items =
    any-sort_by (λ (i : SyncPlanItem). i.object_kind) is_blocked _
    ∙ any-sort_by (λ (i : SyncPlanItem). i.external_id) is_blocked _
    ∙ any-sort_by (λ (i : SyncPlanItem). value_of i.action) is_blocked _
    ∙ any-sort_by (λ (i : SyncPlanItem). i.reason_code) is_blocked items

-- A blocked item is kept beside the mutations, and one without a change is not blocked.
blocked_lem :
    (item : SyncPlanItem)
    → ((is_blocked item && not (is_kept item)) ≡ false)
      × ((is_blocked item && is_no_change item) ≡ false)
blocked_lem item = go item.action refl
  where
    go :
        (a : SyncAction)
        → item.action ≡ a
        → ((is_blocked item && not (is_kept item)) ≡ false)
          × ((is_blocked item && is_no_change item) ≡ false)
    go create e = rw e (refl, refl)
    go update_object e = rw e (refl, refl)
    go no_change e = rw e (refl, refl)
    go review_required e = rw e (refl, refl)
    go blocked e = rw e (refl, refl)
    go ignored e = rw e (refl, refl)
    go unsupported e = rw e (refl, refl)
    go retain_only e = rw e (refl, refl)

blocked-kept :
    (items : List SyncPlanItem) → any is_blocked (keep is_kept items) ≡ any is_blocked items
blocked-kept [] = refl
blocked-kept (i ∷ items) = ground (arith, blocked-kept items, (blocked_lem i).0)

module _ (hash : Json → String) (print sort_key : Json → String) (same : Json → Json → Bool) where
  blocked-unmutated :
      (all_items items : List SyncPlanItem)
      → any is_blocked (keep (is_unmutated hash print sort_key same all_items) items) ≡ false
  unfolding review_endpoint
  blocked-unmutated all_items [] = refl
  blocked-unmutated all_items (i ∷ items) =
      ground (arith, blocked-unmutated all_items items, (blocked_lem i).1)

  blocked-mutation_item :
      (m : Mutation) (item : SyncPlanItem)
      → mutation_item hash print sort_key same m ≡ ok item
      → is_blocked item ≡ false
  unfolding mutation_item
  blocked-mutation_item m item h =
      let (identities, _, done) = >>=-eq-ok (identities_in _) _ h in
      elim (Bool-cases (m.operation == "create")) [
        | inl e ↦ subst (λ (i : SyncPlanItem). is_blocked i ≡ false) (ok_eq done) (rw e refl)
        | inr e ↦ subst (λ (i : SyncPlanItem). is_blocked i ≡ false) (ok_eq done) (rw e refl)
      ]

  blocked-mutation_items :
      (ms : List Mutation) (items : List SyncPlanItem)
      → mutation_items hash print sort_key same ms ≡ ok items
      → any is_blocked items ≡ false
  unfolding mutation_items
  blocked-mutation_items [] items h = ap (any is_blocked) (sym (ok_eq h))
  blocked-mutation_items (m ∷ ms) items h =
      let (item, one, more) = >>=-eq-ok (mutation_item hash print sort_key same m) _ h in
      let (rest, others, done) = >>=-eq-ok (mutation_items hash print sort_key same ms) _ more in
      subst (λ items. any is_blocked items ≡ false) (ok_eq done)
        (rw (blocked-mutation_item m item one, blocked-mutation_items ms rest others) refl)

  allowed-review :
      (review : List ReviewItem) (config : SourceConfig)
      → apply_allowed (plan_from_review hash print sort_key same review config)
        ≡ not (any is_conflict review)
  unfolding apply_allowed plan_from_review
  allowed-review review config = ap not (blocked-review review config)

  allowed-mutations :
      (review : List ReviewItem) (config : SourceConfig) (mutations : List Mutation)
      (plan : SyncPlan)
      → plan_from_mutations hash print sort_key same review config mutations ≡ ok plan
      → apply_allowed plan ≡ not (any is_conflict review)
  unfolding plan_from_mutations apply_allowed plan_from_review
  allowed-mutations review config mutations plan h =
      let (mutated, made, done) =
        >>=-eq-ok (mutation_items hash print sort_key same mutations) _ h in
      let items = map item_of review ++ retained config ∷ [] in
      let kept = keep is_kept items ++ mutated in
      subst (λ (p : SyncPlan). apply_allowed p ≡ not (any is_conflict review)) (ok_eq done)
        (ap not (
          blocked-sort_items (kept ++ keep (is_unmutated hash print sort_key same kept) items)
          ∙ any-append is_blocked kept (keep (is_unmutated hash print sort_key same kept) items)
          ∙ ground (
            arith,
            any-append is_blocked (keep is_kept items) mutated,
            blocked-kept items,
            blocked-review review config,
            blocked-mutation_items mutations mutated made,
            blocked-unmutated kept items,
          )))

  allowed-planned :
      {E : Type 0} (r : Result E (List Mutation)) (review : List ReviewItem) (config : SourceConfig)
      (plan : SyncPlan)
      → planned hash print sort_key same r review config ≡ ok plan
      → apply_allowed plan ≡ not (any is_conflict review)
  unfolding plan_from_mutations
  allowed-planned (err e) review config plan h = absurd (cc h)
  allowed-planned {E = E} (ok mutations) review config plan h =
      go (plan_from_mutations hash print sort_key same review config mutations) refl h
    where
      go :
          (r : Result PlanTypeError SyncPlan)
          → plan_from_mutations hash print sort_key same review config mutations ≡ r
          → ◌≡◌ {A = Result (Option E) SyncPlan}
              (elim r [ ok plan ↦ ok plan | err e ↦ err none ])
              (ok plan)
          → apply_allowed plan ≡ not (any is_conflict review)
      go (ok made) e h = allowed-mutations review config mutations plan (e ∙ ap ok (ok_eq h))
      go (err x) e h = absurd (cc h)

  -- Where a runtime plan is built, it is allowed exactly if no item of the review is a conflict,
  -- whatever writes the executors recorded, and the executors were run on the recording facade only
  -- in that case.
  pub apply_allowed-build_runtime_plan :
      {W E : Type 0} (execute : W → Result E (List Mutation) × W) (review : List ReviewItem)
      (config : SourceConfig) (w : W) (plan : SyncPlan)
      → (build_runtime_plan hash print sort_key same execute review config w).0 ≡ ok plan
      → (apply_allowed plan ≡ not (any is_conflict review))
        × ((build_runtime_plan hash print sort_key same execute review config w).1
            ≡ (if any is_conflict review then w else (execute w).1))
  unfolding build_runtime_plan
  apply_allowed-build_runtime_plan execute review config w plan h =
      let allowed = allowed-review review config in
      elim (Bool-cases (any is_conflict review)) [
        | inl stopped ↦
            let refused : apply_allowed (plan_from_review hash print sort_key same review config)
                ≡ false =
              allowed ∙ ap not stopped in
            (
              subst (λ (p : SyncPlan). apply_allowed p ≡ not (any is_conflict review))
                  (ok_eq (rw refused at h)) allowed,
              rw (refused, stopped) refl,
            )
        | inr clear ↦
            let accepted : apply_allowed (plan_from_review hash print sort_key same review config)
                ≡ true =
              allowed ∙ ap not clear in
            (
              allowed-planned (execute w).0 review config plan (rw accepted at h),
              rw (accepted, clear) refl,
            )
      ]
