-- ===== src/Metadata/Laws.antt =====
-- What a run writes, the next run finds.
use infra_sync.Prelude.{String, ◌≡◌, refl, [], ◌∷◌, ok}
use infra_sync.Json.{Json, str, Fields}
use infra_sync.Discovery.{Nic, VirtualMachine, Container, Guest, machine, lxc, Host}
use infra_sync.Identity.Record.{SourceIdentity, IsValid}
use infra_sync.Identity.Builders.{
  virtual_machine_source_identity, lxc_source_identity, host_source_identity,
  virtual_machine_source_identity-IsValid, lxc_source_identity-IsValid,
  host_source_identity-IsValid, virtual_machine_nic_source_identity-IsValid,
  lxc_nic_source_identity-IsValid,
}
use infra_sync.Metadata.Steps.{built, Built-match_rank}
use infra_sync.Metadata.Machines.{build_vm_custom_fields, normalized, vm_sync_identity_match_rank}
use infra_sync.Metadata.Containers.{
  build_lxc_custom_fields, container_items, lxc_sync_identity_match_rank,
}
use infra_sync.Metadata.Devices.{build_device_custom_fields, host_items, sync_identity_match_rank}
use infra_sync.Metadata.Nics.{
  build_nic_custom_fields, nic_identity, nic_identity_source_id, guest_owner, nic_items,
  nic_sync_identity_match_rank,
}

-- The fields that a run builds for a virtual machine are a v2 match of it on the next run.
pub build_vm_custom_fields-match_rank :
    (print sort_key : Json → String) (vm : VirtualMachine) (existing result : Fields)
    → build_vm_custom_fields print sort_key vm existing ≡ ok result
    → vm_sync_identity_match_rank print result vm ≡ ok 2
unfolding build_vm_custom_fields vm_sync_identity_match_rank
build_vm_custom_fields-match_rank print sort_key vm existing result h =
    let b =
      built print sort_key (virtual_machine_source_identity vm) (normalized existing)
        (str vm.original_name) [] existing result h in
    rw b.identity_eq (
      Built-match_rank print sort_key _ _ _ [] existing result _ vm.legacy_identity_owner refl
        (virtual_machine_source_identity-IsValid vm) b)

-- The fields that a run builds for a container are a v2 match of it on the next run.
pub build_lxc_custom_fields-match_rank :
    (print sort_key : Json → String) (container : Container) (existing result : Fields)
    → build_lxc_custom_fields print sort_key container existing ≡ ok result
    → lxc_sync_identity_match_rank print result container ≡ ok 2
unfolding build_lxc_custom_fields lxc_sync_identity_match_rank
build_lxc_custom_fields-match_rank print sort_key container existing result h =
    let b =
      built print sort_key (lxc_source_identity container) existing (str container.original_name)
        (container_items container) existing result h in
    rw b.identity_eq (
      Built-match_rank print sort_key _ _ _ (container_items container) existing result _
        container.legacy_identity_owner refl (lxc_source_identity-IsValid container) b)

-- The fields that a run builds for a host are a v2 match of it on the next run.
pub build_device_custom_fields-match_rank :
    (print sort_key : Json → String) (host : Host) (existing result : Fields)
    → build_device_custom_fields print sort_key host existing ≡ ok result
    → sync_identity_match_rank print result host ≡ ok 2
unfolding build_device_custom_fields sync_identity_match_rank
build_device_custom_fields-match_rank print sort_key host existing result h =
    let b =
      built print sort_key (host_source_identity host) existing (str host.original_name)
        (host_items host) existing result h in
    rw b.identity_eq (
      Built-match_rank print sort_key _ _ _ (host_items host) existing result _
        host.legacy_identity_owner refl (host_source_identity-IsValid host) b)

pub nic_identity-IsValid :
    (guest : Guest) (nic : Nic) (i : SourceIdentity) → nic_identity guest nic ≡ ok i → IsValid i
unfolding nic_identity
nic_identity-IsValid (machine vm) nic i h = virtual_machine_nic_source_identity-IsValid vm nic i h
nic_identity-IsValid (lxc c) nic i h = lxc_nic_source_identity-IsValid c nic i h

-- The fields that a run builds for an interface, of a virtual machine or of a container, are a v2
-- match of it on the next run.
pub build_nic_custom_fields-match_rank :
    (print sort_key : Json → String) (guest : Guest) (nic : Nic) (existing result : Fields)
    → build_nic_custom_fields print sort_key guest nic existing ≡ ok result
    → nic_sync_identity_match_rank print result guest nic ≡ ok 2
unfolding build_nic_custom_fields nic_sync_identity_match_rank
build_nic_custom_fields-match_rank print sort_key guest nic existing result h =
    let b =
      built print sort_key (nic_identity guest nic) existing (str nic.name) (nic_items nic) existing
        result h in
    rw (
      b.identity_eq,
      Built-match_rank print sort_key _ _ _ (nic_items nic) existing result
          (nic_identity_source_id guest nic ∷ []) (guest_owner guest) refl
          (nic_identity-IsValid guest nic) b,
    )
