-- ===== src/Metadata/Machines.antt =====
-- netbox_sync/netbox_vm_metadata.py
use infra_sync.Prelude.{ℕ, String, List, [], ◌∷◌, Result, ok, ◌>>=◌}
use infra_sync.Json.{Json, null, str, arr, obj, nil, Fields, end, get, put, update, or_null}
use infra_sync.Discovery.{VirtualMachine}
use infra_sync.Identity.Record.{IdentityError}
use infra_sync.Identity.Rank.{match_rank}
use infra_sync.Identity.Merge.{merge_source_identities, merge_original_name}
use infra_sync.Identity.Select.{select_best}
use infra_sync.Identity.Builders.{virtual_machine_source_identity}
use infra_sync.Metadata.{local_source_id, sync_items}

unfoldable pub vm_identity_source_id : VirtualMachine → String
unfolding local_source_id
vm_identity_source_id vm = local_source_id vm.source vm.source_id

unfoldable pub vm_sync_identity_match_rank :
    (Json → String) → Fields → VirtualMachine → Result IdentityError ℕ
vm_sync_identity_match_rank print custom_fields vm = do
  desired ← virtual_machine_source_identity vm
  match_rank print custom_fields desired (vm_identity_source_id vm ∷ vm.source_id ∷ [])
      vm.legacy_identity_owner

-- `candidate_fields` is `getattr(candidate, 'custom_fields', None) or {}`.
unfoldable pub find_vm_sync_identity_matches :
    {A : Type 0}
    → (Json → String)
    → (A → Fields)
    → List A
    → VirtualMachine
    → Result IdentityError (List A)
unfolding vm_sync_identity_match_rank
find_vm_sync_identity_matches print candidate_fields candidates vm =
    select_best (λ c. vm_sync_identity_match_rank print (candidate_fields c) vm) candidates

abbrev default_for : Json → Json → Fields → String → Fields
default_for null value fields key = put key value fields
default_for _ value fields key = fields

-- A missing or `None` field is read as empty.
unfoldable pub normalized : Fields → Fields
normalized existing =
    let first =
      default_for (or_null (get "sync_identities" existing)) (arr nil) existing "sync_identities" in
    default_for (or_null (get "sync_original_names" first)) (obj end) first "sync_original_names"

unfoldable pub build_vm_custom_fields :
    (print sort_key : Json → String) → VirtualMachine → Fields → Result IdentityError Fields
build_vm_custom_fields print sort_key vm existing = do
  desired ← virtual_machine_source_identity vm
  identities ← merge_source_identities print sort_key (normalized existing) desired
  names ← merge_original_name (normalized existing) desired (str vm.original_name)
  ok (update (sync_items identities names []) existing)

abbrev pub managed_vm_custom_fields : List String
managed_vm_custom_fields = "sync_identities" ∷ "sync_original_names" ∷ []
