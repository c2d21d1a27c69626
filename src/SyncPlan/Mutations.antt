-- ===== src/SyncPlan/Mutations.antt =====
-- `plan_from_mutations` and `build_runtime_plan`.
use infra_sync.Prelude.{
  String, Bool, true, false, not, ◌&&◌, Option, none, some, List, [], ◌∷◌, ◌++◌, map, any, keep,
  ◌==◌, if◌then◌else◌, Result, ok, err, ◌>>=◌,
}
use infra_sync.Prelude.Sorting.{sort_by}
use infra_sync.Json.{
  Json, null, str, arr, obj, nil, cons, to_list, of_list, Fields, get, or_null, update,
}
use infra_sync.Config.{SourceConfig}
use infra_sync.Disappearance.Identities.{is_truthy}
use infra_sync.SyncPlan.{
  create, update_object, ReviewItem, SyncPlanItem, SyncPlan, Mutation, apply_allowed, fields_of,
  review_endpoint, sort_items, is_kept, is_update, is_no_change, plan_from_review,
}

-- `None` or a number is iterated as if it were a list of identities.
pub data PlanTypeError : Type 0 where
  not_iterable : PlanTypeError

-- The values that a loop over the identities meets; the characters of a text and the keys of an
-- object are no objects, and are passed over.
abbrev pub iterated : Option Json → Result PlanTypeError (List Json)
iterated none = ok []
iterated (some (arr xs)) = ok (to_list xs)
iterated (some (str s)) = ok []
iterated (some (obj fs)) = ok []
iterated (some v) = err not_iterable

abbrev pub identities_in : Fields → Result PlanTypeError (List Json)
identities_in fields = elim (get "custom_fields" fields) [
  | some (obj custom_fields) ↦ iterated (get "sync_identities" custom_fields)
  | _ ↦ ok []
]

-- `value.get('external_id') or value.get('source_id')`, of an object
abbrev or_else : Json → Json → Json
unfolding is_truthy
or_else a b = if is_truthy a then a else b

abbrev pub id_of : Json → Json
unfolding is_truthy
id_of (obj fs) = or_else (or_null (get "external_id" fs)) (or_null (get "source_id" fs))
id_of v = null

abbrev pub first_id : List Json → Json
unfolding is_truthy
first_id [] = null
first_id (v ∷ vs) = let rest = first_id vs in if is_truthy (id_of v) then id_of v else rest

abbrev is_none : Json → Bool
is_none null = true
is_none v = false

module _ (hash : Json → String) (print sort_key : Json → String) (same : Json → Json → Bool) where
  abbrev text_or : Option Json → Json → String
  text_or none v = print v
  text_or (some v) other = print v

  abbrev external_id_of : Json → Json → String
  unfolding is_truthy
  external_id_of found object_id = if is_truthy found then print found else print object_id

  abbrev is_create : Mutation → Bool
  is_create m = m.operation == "create"

  unfoldable pub mutation_item : Mutation → Result PlanTypeError SyncPlanItem
  unfolding is_truthy
  mutation_item m = do
    identities ← identities_in (update (fields_of m.after) m.before)
    ok (record {
      object_kind = m.endpoint;
      external_id = external_id_of (first_id identities) m.object_id;
      name = text_or (get "name" m.after) m.object_id;
      action = if is_create m then create else update_object;
      reason_code = "GUARDED_EXECUTOR_ACTION";
      reason = "Existing guarded executor would perform this managed-field mutation.";
      matched_object_id = if is_create m then null else m.object_id;
      before = sort_by (λ (p : String × Json). p.0) (fields_of m.before);
      after = sort_by (λ (p : String × Json). p.0) (fields_of m.after);
    })

  unfoldable pub mutation_items : List Mutation → Result PlanTypeError (List SyncPlanItem)
  unfolding mutation_item
  mutation_items [] = ok []
  mutation_items (m ∷ ms) = do item ← mutation_item m; items ← mutation_items ms; ok (item ∷ items)

  -- `(review_endpoints.get(item.object_kind), item.matched_object_id) in mutated_ids`
  abbrev is_same_object : SyncPlanItem → SyncPlanItem → Bool
  unfolding review_endpoint
  is_same_object item mutated =
      is_update mutated
      && elim (review_endpoint item.object_kind) [
        | some endpoint ↦ endpoint == mutated.object_kind
        | none ↦ false
      ]
      && same item.matched_object_id mutated.matched_object_id

  abbrev pub is_unmutated : List SyncPlanItem → SyncPlanItem → Bool
  unfolding review_endpoint
  is_unmutated items item = is_no_change item && not (any (is_same_object item) items)

  abbrev mutation_json : Mutation → Json
  mutation_json m = arr (cons (str m.endpoint) (cons m.object_id (cons (obj m.before) nil)))

  unfoldable pub plan_from_mutations :
      List ReviewItem → SourceConfig → List Mutation → Result PlanTypeError SyncPlan
  unfolding plan_from_review mutation_items review_endpoint sort_items
  plan_from_mutations review config mutations = do
    let review_plan = plan_from_review hash print sort_key same review config
    mutated ← mutation_items mutations
    let items = keep is_kept review_plan.items ++ mutated
    ok (record review_plan {
      netbox_fingerprint = hash (arr (of_list (map mutation_json mutations)));
      items = sort_items (items ++ keep (is_unmutated items) review_plan.items);
    })

  abbrev pub planned :
      {E : Type 0}
      → Result E (List Mutation)
      → List ReviewItem
      → SourceConfig
      → Result (Option E) SyncPlan
  unfolding plan_from_mutations
  planned (err e) review config = err (some e)
  planned (ok mutations) review config = elim (plan_from_mutations review config mutations) [
    | ok plan ↦ ok plan
    | err e ↦ err none
  ]

  -- `build_runtime_plan` from the review on: the executors run on the recording facade only where
  -- the review has no conflict. An error is that of the executors or, `none`, a `TypeError`.
  unfoldable pub build_runtime_plan :
      {W E : Type 0}
      → (W → Result E (List Mutation) × W)
      → List ReviewItem
      → SourceConfig
      → W
      → Result (Option E) SyncPlan × W
  unfolding plan_from_review plan_from_mutations apply_allowed
  build_runtime_plan execute review config w =
      let review_plan = plan_from_review hash print sort_key same review config in
      if not (apply_allowed review_plan)
      then (ok review_plan, w)
      else (let (r, w') = execute w in (planned r review config, w'))
