-- ===== src/Metadata/Scope.antt =====
-- The builders write the managed fields and no other.
use infra_sync.Prelude.{String, ◌≡◌, false, [], mem_text, ok}
use infra_sync.Json.{Json, str, Fields, get}
use infra_sync.Discovery.{Nic, VirtualMachine, Container, Guest, Host}
use infra_sync.Identity.Builders.{
  virtual_machine_source_identity, lxc_source_identity, host_source_identity,
}
use infra_sync.Metadata.Steps.{get-steps}
use infra_sync.Metadata.Machines.{build_vm_custom_fields, managed_vm_custom_fields, normalized}
use infra_sync.Metadata.Containers.{
  build_lxc_custom_fields, managed_lxc_custom_fields, container_items,
}
use infra_sync.Metadata.Devices.{
  build_device_custom_fields, managed_device_custom_fields, host_items,
}
use infra_sync.Metadata.Nics.{
  build_nic_custom_fields, managed_vm_interface_custom_fields, nic_items, nic_identity,
}

-- Where the fields of a virtual machine are built, a field that the sync does not manage on virtual
-- machines keeps its value, or stays absent.
pub get-build_vm_custom_fields :
    (print sort_key : Json → String) (vm : VirtualMachine) (existing result : Fields) (key : String)
    → mem_text key managed_vm_custom_fields ≡ false
    → build_vm_custom_fields print sort_key vm existing ≡ ok result
    → get key result ≡ get key existing
unfolding build_vm_custom_fields
get-build_vm_custom_fields print sort_key vm existing result key other h =
    get-steps print sort_key (virtual_machine_source_identity vm) (normalized existing)
      (str vm.original_name) [] existing result key other h

-- A field that the sync does not manage on containers keeps its value, or stays absent.
get-build_lxc_custom_fields :
    (print sort_key : Json → String) (container : Container) (existing result : Fields)
    (key : String)
    → mem_text key managed_lxc_custom_fields ≡ false
    → build_lxc_custom_fields print sort_key container existing ≡ ok result
    → get key result ≡ get key existing
unfolding build_lxc_custom_fields
get-build_lxc_custom_fields print sort_key container existing result key other h =
    get-steps print sort_key (lxc_source_identity container) existing (str container.original_name)
      (container_items container) existing result key other h

-- A field that the sync does not manage on hosts keeps its value, or stays absent.
get-build_device_custom_fields :
    (print sort_key : Json → String) (host : Host) (existing result : Fields) (key : String)
    → mem_text key managed_device_custom_fields ≡ false
    → build_device_custom_fields print sort_key host existing ≡ ok result
    → get key result ≡ get key existing
unfolding build_device_custom_fields
get-build_device_custom_fields print sort_key host existing result key other h =
    get-steps print sort_key (host_source_identity host) existing (str host.original_name)
      (host_items host) existing result key other h

-- Where the fields of an interface are built, a field that the sync does not manage on interfaces
-- keeps its value, or stays absent.
pub get-build_nic_custom_fields :
    (print sort_key : Json → String) (guest : Guest) (nic : Nic) (existing result : Fields)
    (key : String)
    → mem_text key managed_vm_interface_custom_fields ≡ false
    → build_nic_custom_fields print sort_key guest nic existing ≡ ok result
    → get key result ≡ get key existing
unfolding build_nic_custom_fields
get-build_nic_custom_fields print sort_key guest nic existing result key other h =
    get-steps print sort_key (nic_identity guest nic) existing (str nic.name) (nic_items nic)
      existing result key other h
