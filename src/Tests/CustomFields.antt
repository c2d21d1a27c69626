-- ===== src/Tests/CustomFields.antt =====
-- Runs of the builders of custom fields.
use infra_sync.Prelude.{String, ◌≡◌, refl, Option, none, some, List, [], ◌∷◌, Result, ok, err}
use infra_sync.Json.{Json, str, arr, obj, cons, nil, Fields, end, field, get}
use infra_sync.Discovery.{machine}
use infra_sync.Identity.Record.{IdentityError}
use infra_sync.Metadata.Machines.{build_vm_custom_fields, vm_sync_identity_match_rank}
use infra_sync.Metadata.Nics.{build_nic_custom_fields, nic_sync_identity_match_rank}
use infra_sync.Metadata.Laws.{build_vm_custom_fields-match_rank, build_nic_custom_fields-match_rank}
use infra_sync.Tests.{print, sort_key, legacy_record, other_record, vm, nic}

abbrev pub existing : Fields
existing =
    field "sync_identities" (arr (cons legacy_record (cons other_record nil)))
      (field "owner" (str "team-a") end)

abbrev pub value_of : Result IdentityError Fields → Fields
value_of (ok fields) = fields
value_of (err e) = end

build_vm_custom_fields-match_rank_example :
    vm_sync_identity_match_rank print
      (value_of (build_vm_custom_fields print sort_key vm existing))
      vm
    ≡ ok 2
unfolding build_vm_custom_fields infra_sync.Identity.Builders.virtual_machine_source_identity
    infra_sync.Identity.Builders.identity infra_sync.Identity.Record.make_identity
    infra_sync.Prelude.is_blank infra_sync.Identity.Merge.merge_source_identities get
    infra_sync.Metadata.Machines.normalized infra_sync.Json.put
    infra_sync.Identity.Merge.foreign_records infra_sync.Identity.Record.from_record
    infra_sync.Identity.Merge.merge_original_name
build_vm_custom_fields-match_rank_example =
    build_vm_custom_fields-match_rank print sort_key vm existing
      (value_of (build_vm_custom_fields print sort_key vm existing)) refl

build_nic_custom_fields-match_rank_example :
    nic_sync_identity_match_rank print
      (value_of (build_nic_custom_fields print sort_key (machine vm) nic existing))
      (machine vm)
      nic
    ≡ ok 2
unfolding build_nic_custom_fields infra_sync.Identity.Builders.virtual_machine_nic_source_identity
    infra_sync.Identity.Builders.identity infra_sync.Identity.Record.make_identity
    infra_sync.Prelude.is_blank infra_sync.Identity.Merge.merge_source_identities get
    infra_sync.Identity.Merge.foreign_records infra_sync.Identity.Record.from_record
    infra_sync.Identity.Merge.merge_original_name
build_nic_custom_fields-match_rank_example =
    build_nic_custom_fields-match_rank print sort_key (machine vm) nic existing
      (value_of (build_nic_custom_fields print sort_key (machine vm) nic existing)) refl
