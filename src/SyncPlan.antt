-- ===== src/SyncPlan.antt =====
-- netbox_sync/application/sync_plan.py and runtime_plan.py: the canonical plan of a run, from the
-- review of what was discovered and from the writes that the guarded executors would make. The
-- review, the executors on the recording facade and the hash of a value are parameters.
pub mod Mutations
pub mod Laws
use infra_sync.Prelude.{
  ℕ, String, Bool, true, false, not, ◌&&◌, ◌||◌, Option, none, some, List, [], ◌∷◌, ◌++◌, map, any,
  keep, ◌==◌, if◌then◌else◌, Result, ok, err, ◌>>=◌,
}
use infra_sync.Prelude.Sorting.{sort_by}
use infra_sync.Json.{
  Json, null, bool, num, str, arr, obj, Items, nil, cons, to_list, of_list, Fields, end, field, get,
  update,
}
use infra_sync.Config.{SourceConfig, SecretReference}
use infra_sync.Disappearance.Identities.{is_truthy}

pub data SyncAction : Type 0 where
  create update_object no_change review_required blocked ignored unsupported retain_only :
      SyncAction

pub data Classification : Type 0 where
  managed needs_review would_create is_ignored is_unsupported conflict unchanged : Classification

-- An object's id is a number, a text or `None`, as JSON.
pub record ReviewItem : Type 0 where
  pub object_kind : String
  pub name : String
  pub external_id : String
  pub classification : Classification
  pub reason_code : String
  pub reason : String
  pub future_action : String
  pub matched_object_id : Json
  pub matched_object_name : Json

pub record SyncPlanItem : Type 0 where
  pub object_kind : String
  pub external_id : String
  pub name : String
  pub action : SyncAction
  pub reason_code : String
  pub reason : String
  pub matched_object_id : Json
  pub before : List (String × Json)
  pub after : List (String × Json)

pub record SyncPlan : Type 0 where
  pub source_instance : String
  pub source_id : String
  pub source_type : String
  pub source_fingerprint : String
  pub target_fingerprint : String
  pub provider_fingerprint : String
  pub netbox_fingerprint : String
  pub items : List SyncPlanItem

-- A write that the recording facade took down.
pub record Mutation : Type 0 where
  pub operation : String
  pub endpoint : String
  pub object_id : Json
  pub before : Fields
  pub after : Fields

abbrev pub value_of : SyncAction → String
value_of create = "CREATE"
value_of update_object = "UPDATE"
value_of no_change = "NO_CHANGE"
value_of review_required = "REVIEW_REQUIRED"
value_of blocked = "BLOCKED"
value_of ignored = "IGNORED"
value_of unsupported = "UNSUPPORTED"
value_of retain_only = "RETAIN_ONLY"

abbrev pub is_blocked : SyncPlanItem → Bool
is_blocked item = elim item.action [ blocked ↦ true | _ ↦ false ]

-- `SyncPlan.apply_allowed`
unfoldable pub apply_allowed : SyncPlan → Bool
apply_allowed plan = not (any is_blocked plan.items)

-- `action_map`
unfoldable pub action_of : Classification → SyncAction
action_of managed = no_change
action_of unchanged = no_change
action_of would_create = create
action_of needs_review = review_required
action_of conflict = blocked
action_of is_ignored = ignored
action_of is_unsupported = unsupported

abbrev is_none : Json → Bool
is_none null = true
is_none v = false

unfoldable pub item_of : ReviewItem → SyncPlanItem
unfolding action_of
item_of r = record {
  object_kind = r.object_kind;
  external_id = r.external_id;
  name = r.name;
  action = action_of r.classification;
  reason_code = r.reason_code;
  reason = r.reason;
  matched_object_id = r.matched_object_id;
  before =
      if is_none r.matched_object_id
      then []
      else ("id", r.matched_object_id) ∷ ("name", r.matched_object_name) ∷ [];
  after =
      if r.future_action == "create" || r.future_action == "update"
      then ("name", str r.name) ∷ []
      else [];
}

abbrev pub retained : SourceConfig → SyncPlanItem
retained config = record {
  object_kind = "source";
  external_id = config.source_instance;
  name = config.name;
  action = retain_only;
  reason_code = "DISAPPEARANCE_RETAIN_ONLY";
  reason = "Managed objects absent from discovery are reported and retained; none are deleted.";
  matched_object_id = null;
  before = [];
  after = [];
}

abbrev pub reference_json : SecretReference → Json
reference_json r = arr (cons (str r.provider) (cons (str r.key) nil))

abbrev pairs_json : List (String × Json) → Items
pairs_json [] = nil
pairs_json ((k, v) ∷ ps) = cons (arr (cons (str k) (cons v nil))) (pairs_json ps)

abbrev pub fields_of : Fields → List (String × Json)
fields_of end = []
fields_of (field k v fs) = (k, v) ∷ fields_of fs

-- `review_endpoints`
unfoldable pub review_endpoint : String → Option String
review_endpoint kind =
    if kind == "host"
    then some "dcim.devices"
    else if kind == "qemu" || kind == "lxc" || kind == "vm"
    then some "virtualization.virtual_machines"
    else none

-- Python sorts tuples of texts: a stable sort by the last one, then by the one before, and so on.
unfoldable pub sort_items : List SyncPlanItem → List SyncPlanItem
sort_items items =
    sort_by (λ (i : SyncPlanItem). i.object_kind)
      (sort_by (λ (i : SyncPlanItem). i.external_id)
        (sort_by (λ (i : SyncPlanItem). value_of i.action)
          (sort_by (λ (i : SyncPlanItem). i.reason_code) items)))

-- The items of the review that stay beside the mutations.
abbrev pub is_kept : SyncPlanItem → Bool
is_kept item = elim item.action [
  | review_required ↦ true
  | blocked ↦ true
  | ignored ↦ true
  | unsupported ↦ true
  | retain_only ↦ true
  | _ ↦ false
]

abbrev pub is_update : SyncPlanItem → Bool
is_update item = elim item.action [ update_object ↦ true | _ ↦ false ]

abbrev pub is_no_change : SyncPlanItem → Bool
is_no_change item = elim item.action [ no_change ↦ true | _ ↦ false ]

-- `stable_fingerprint` is `hash`, `str` is `print`, the sort key of `repr` is `sort_key`.
module _ (hash : Json → String) (print sort_key : Json → String) (same : Json → Json → Bool) where
  unfoldable pub safe_source_fingerprint : SourceConfig → String
  safe_source_fingerprint config = hash (
      obj (
        field "id" (str config.id) (
          field "source_instance" (str config.source_instance) (
            field "name" (str config.name) (
              field "source_type" (str config.source_type) (
                field "address" (str config.address) (
                  field "enabled" (bool config.enabled) (
                    field "sync_enabled" (bool config.sync_enabled) (
                      field "sync_interval_seconds" (num config.sync_interval_seconds) (
                        field "verify_ssl" (bool config.verify_ssl) (
                          field "legacy_identity_owner" (bool config.legacy_identity_owner) (
                            field "settings" (obj config.settings) (
                              field "credential_binding"
                                (obj (
                                  field "username" (str config.credentials.username) (
                                    field "token_id" (reference_json config.credentials.token_id) (
                                      field "token_secret"
                                        (reference_json config.credentials.token_secret) end))))
                                end)))))))))))))

  unfoldable pub target_fingerprint : SourceConfig → String
  target_fingerprint config = hash (
      obj (
        field "site_slug" (str config.target.site_slug) (
          field "device_role_slug" (str config.target.device_role_slug) (
            field "platform_slug" (str config.target.platform_slug) (
              field "device_type_slug" (str config.target.device_type_slug) (
                field "cluster_type_slug" (str config.target.cluster_type_slug)
                  (field "cluster_name" (str config.target.cluster_name) end)))))))

  abbrev triple : SyncPlanItem → Json
  triple i = arr (cons (str i.object_kind) (cons (str i.external_id) (cons (str i.name) nil)))

  abbrev matched_triple : SyncPlanItem → Json
  matched_triple i =
      arr
        (cons (str i.object_kind) (cons i.matched_object_id (cons (arr (pairs_json i.before)) nil)))

  unfoldable pub provider_fingerprint : List SyncPlanItem → String
  provider_fingerprint items = hash (
      arr (
        of_list (
          map triple (
            sort_by (λ (i : SyncPlanItem). i.object_kind)
              (sort_by (λ (i : SyncPlanItem). i.external_id)
                (sort_by (λ (i : SyncPlanItem). i.name) items))))))

  unfoldable pub netbox_fingerprint : List SyncPlanItem → String
  netbox_fingerprint items = hash (
      arr (
        of_list (
          sort_by sort_key (
            map matched_triple
              (keep (λ (i : SyncPlanItem). not (is_none i.matched_object_id)) items)))))

  unfoldable pub plan_from_review : List ReviewItem → SourceConfig → SyncPlan
  unfolding item_of safe_source_fingerprint target_fingerprint provider_fingerprint
      netbox_fingerprint
  plan_from_review review config =
      let items = map item_of review ++ retained config ∷ [] in
      record {
        source_instance = config.source_instance;
        source_id = config.id;
        source_type = config.source_type;
        source_fingerprint = safe_source_fingerprint config;
        target_fingerprint = target_fingerprint config;
        provider_fingerprint = provider_fingerprint items;
        netbox_fingerprint = netbox_fingerprint items;
        items = items;
      }
