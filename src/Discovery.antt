-- ===== src/Discovery.antt =====
-- netbox_sync/discovery.py: the objects that the source adapters return. `vmid`, which the VM
-- class leaves untyped, is held as its `str`, the only form in which the modelled code reads it.
use infra_sync.Prelude.{ℕ, String, Bool, Option, List}

pub record Disk : Type 0 where
  pub path : String
  pub model : Option String
  pub serial : Option String
  pub size_bytes : ℕ
  pub disk_type : Option String
  pub health : Option String

pub record Cpu : Type 0 where
  pub model : Option String
  pub vendor : Option String
  pub sockets : ℕ
  pub cores : ℕ
  pub logical_cpus : ℕ

pub record VirtualDisk : Type 0 where
  pub name : String
  pub storage : Option String
  pub size_bytes : ℕ

pub record Nic : Type 0 where
  pub name : String
  pub mac_address : Option String
  pub bridge : Option String
  pub vlan_id : Option ℕ
  pub ip_addresses : List String
  pub external_id : Option String

pub record VirtualMachine : Type 0 where
  pub source : String
  pub source_instance : String
  pub legacy_identity_owner : Bool
  pub source_id : String
  pub node_source_id : String
  pub vmid : String
  pub original_name : String
  pub normalized_name : String
  pub status : String
  pub vcpus : ℕ
  pub memory_bytes : ℕ
  pub autostart : Bool
  pub disks : List VirtualDisk
  pub interfaces : List Nic
  pub external_id : Option String

pub record Container : Type 0 where
  pub source : String
  pub source_instance : String
  pub legacy_identity_owner : Bool
  pub source_id : String
  pub node_source_id : String
  pub vmid : String
  pub original_name : String
  pub normalized_name : String
  pub status : String
  pub architecture : Option String
  pub os_type : Option String
  pub vcpus : ℕ
  pub memory_bytes : ℕ
  pub swap_bytes : ℕ
  pub autostart : Bool
  pub unprivileged : Bool
  pub disks : List VirtualDisk
  pub interfaces : List Nic

-- An object that owns interfaces: what `hasattr(vm, 'architecture')` tells apart.
pub data Guest : Type 0 where
  machine : VirtualMachine → Guest
  lxc : Container → Guest

pub record Host : Type 0 where
  pub source : String
  pub source_instance : String
  pub legacy_identity_owner : Bool
  pub source_id : String
  pub original_name : String
  pub normalized_name : String
  pub management_ip : Option String
  pub hypervisor : String
  pub hypervisor_version : Option String
  pub cpu : Cpu
  pub memory_bytes : ℕ
  pub disks : List Disk
  pub virtual_machines : List VirtualMachine
  pub containers : List Container
