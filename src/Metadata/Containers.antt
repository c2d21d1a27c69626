-- ===== src/Metadata/Containers.antt =====
-- netbox_sync/netbox_lxc_metadata.py
use infra_sync.Prelude.{ℕ, String, ◌/◌, ◌^◌, List, [], ◌∷◌, Result, ok, ◌>>=◌}
use infra_sync.Json.{Json, num, str, Fields, update}
use infra_sync.Discovery.{Container}
use infra_sync.Identity.Record.{IdentityError}
use infra_sync.Identity.Rank.{match_rank}
use infra_sync.Identity.Merge.{merge_source_identities, merge_original_name}
use infra_sync.Identity.Select.{select_best}
use infra_sync.Identity.Builders.{lxc_source_identity}
use infra_sync.Metadata.{local_source_id, sync_items, text_or_null}

unfoldable pub lxc_identity_source_id : Container → String
unfolding local_source_id
lxc_identity_source_id container = local_source_id container.source container.source_id

unfoldable pub lxc_sync_identity_match_rank :
    (Json → String) → Fields → Container → Result IdentityError ℕ
lxc_sync_identity_match_rank print custom_fields container = do
  desired ← lxc_source_identity container
  match_rank print custom_fields desired (lxc_identity_source_id container ∷ [])
      container.legacy_identity_owner

unfoldable pub find_lxc_sync_identity_matches :
    {A : Type 0}
    → (Json → String)
    → (A → Fields)
    → List A
    → Container
    → Result IdentityError (List A)
unfolding lxc_sync_identity_match_rank
find_lxc_sync_identity_matches print candidate_fields candidates container =
    select_best (λ c. lxc_sync_identity_match_rank print (candidate_fields c) container) candidates

-- The fields of a container beside the two that every builder writes.
unfoldable pub container_items : Container → List (String × Json)
container_items container =
    ("guest_kind", str "lxc")
    ∷ ("guest_architecture", text_or_null container.architecture)
    ∷ ("guest_os_type", text_or_null container.os_type)
    ∷ ("swap_mb", num (container.swap_bytes / 1024 ^ 2))
    ∷ []

unfoldable pub build_lxc_custom_fields :
    (print sort_key : Json → String) → Container → Fields → Result IdentityError Fields
unfolding container_items
build_lxc_custom_fields print sort_key container existing = do
  desired ← lxc_source_identity container
  identities ← merge_source_identities print sort_key existing desired
  names ← merge_original_name existing desired (str container.original_name)
  ok (update (sync_items identities names (container_items container)) existing)

abbrev pub managed_lxc_custom_fields : List String
managed_lxc_custom_fields =
    "sync_identities" ∷ "sync_original_names" ∷ "guest_kind" ∷ "guest_architecture"
    ∷ "guest_os_type" ∷ "swap_mb" ∷ []
