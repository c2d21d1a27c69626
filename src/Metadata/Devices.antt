-- ===== src/Metadata/Devices.antt =====
-- netbox_sync/netbox_metadata.py
use infra_sync.Prelude.{ℕ, String, ◌/◌, ◌^◌, List, [], ◌∷◌, map, Result, ok, ◌>>=◌}
use infra_sync.Prelude.Sorting.{sort_by}
use infra_sync.Json.{Json, num, str, arr, obj, Fields, end, field, update, of_list}
use infra_sync.Discovery.{Disk, Host}
use infra_sync.Identity.Record.{IdentityError}
use infra_sync.Identity.Rank.{match_rank}
use infra_sync.Identity.Merge.{merge_source_identities, merge_original_name}
use infra_sync.Identity.Select.{select_best}
use infra_sync.Identity.Builders.{host_source_identity}
use infra_sync.Metadata.{sync_items, text_or_null}

unfoldable pub sync_identity_match_rank : (Json → String) → Fields → Host → Result IdentityError ℕ
sync_identity_match_rank print custom_fields host = do
  desired ← host_source_identity host
  match_rank print custom_fields desired (host.source_id ∷ []) host.legacy_identity_owner

unfoldable pub find_sync_identity_matches :
    {A : Type 0} → (Json → String) → (A → Fields) → List A → Host → Result IdentityError (List A)
unfolding sync_identity_match_rank
find_sync_identity_matches print candidate_fields candidates host =
    select_best (λ c. sync_identity_match_rank print (candidate_fields c) host) candidates

disk_record : Disk → Json
disk_record disk = obj (
    field "path" (str disk.path) (
      field "model" (text_or_null disk.model) (
        field "serial" (text_or_null disk.serial) (
          field "type" (text_or_null disk.disk_type) (
            field "size_bytes" (num disk.size_bytes)
              (field "health" (text_or_null disk.health) end))))))

-- The hardware fields of a host beside the two that every builder writes.
unfoldable pub host_items : Host → List (String × Json)
unfolding disk_record
host_items host =
    ("hypervisor_version", text_or_null host.hypervisor_version)
    ∷ ("cpu_model", text_or_null host.cpu.model)
    ∷ ("cpu_vendor", text_or_null host.cpu.vendor)
    ∷ ("cpu_sockets", num host.cpu.sockets)
    ∷ ("cpu_cores", num host.cpu.cores)
    ∷ ("cpu_threads", num host.cpu.logical_cpus)
    ∷ ("memory_mb", num (host.memory_bytes / 1024 ^ 2))
    ∷ (
      "physical_disks",
      arr (of_list (map disk_record (sort_by (λ (d : Disk). d.path) host.disks))),
    )
    ∷ []

unfoldable pub build_device_custom_fields :
    (print sort_key : Json → String) → Host → Fields → Result IdentityError Fields
unfolding host_items
build_device_custom_fields print sort_key host existing = do
  desired ← host_source_identity host
  identities ← merge_source_identities print sort_key existing desired
  names ← merge_original_name existing desired (str host.original_name)
  ok (update (sync_items identities names (host_items host)) existing)

abbrev pub managed_device_custom_fields : List String
managed_device_custom_fields =
    "sync_identities" ∷ "sync_original_names" ∷ "hypervisor_version" ∷ "cpu_model" ∷ "cpu_vendor"
    ∷ "cpu_sockets" ∷ "cpu_cores" ∷ "cpu_threads" ∷ "memory_mb" ∷ "physical_disks" ∷ []
