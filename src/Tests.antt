-- ===== src/Tests.antt =====
-- Test data that the runs at concrete inputs share.
mod Identities
mod Apply
mod Capabilities
mod CustomFields
mod Runs
mod Ticks
mod Guests
mod Stages
mod Workers
mod Plans
use infra_sync.Prelude.{ℕ, String, Bool, true, false, Option, none, some, List, [], ◌∷◌}
use infra_sync.Json.{Json, str, arr, obj, cons, nil, Fields, end, field}
use infra_sync.Discovery.{VirtualMachine, Container, Host, Nic, Cpu}
use infra_sync.Identity.Record.{SourceIdentity}

-- `str`, and a key that sorts the records that occur here as their `repr` does.
abbrev pub print : Json → String
print _ = "?"

abbrev pub sort_key : Json → String
sort_key (obj (field _ _ (field _ _ (field _ _ (field _ _ (field _ (str s) end)))))) = s
sort_key _ = "~"

abbrev pub web : SourceIdentity
web = record {
  schema = "v2";
  type = "proxmox";
  instance_name = "pve";
  kind = "qemu";
  external_id = "101";
}

abbrev pub legacy_record : Json
legacy_record = obj (field "source" (str "proxmox") (field "source_id" (str "node1:qemu:101") end))

abbrev pub other_record : Json
other_record = obj (
    field "schema" (str "v2") (
      field "type" (str "esxi") (
        field "instance" (str "lab")
          (field "kind" (str "vm") (field "external_id" (str "u1") end)))))

abbrev pub stored : Fields
stored = field "sync_identities" (arr (cons legacy_record (cons other_record nil))) end

abbrev pub nic : Nic
nic = record {
  name = "net0";
  mac_address = some "AA:BB:CC:DD:EE:FF";
  bridge = some "vmbr0";
  vlan_id = none;
  ip_addresses = [];
  external_id = none;
}

abbrev pub vm : VirtualMachine
vm = record {
  source = "proxmox";
  source_instance = "pve";
  legacy_identity_owner = true;
  source_id = "proxmox:node1:qemu:101";
  node_source_id = "proxmox:node1";
  vmid = "101";
  original_name = "Web";
  normalized_name = "web";
  status = "running";
  vcpus = 2;
  memory_bytes = 1024;
  autostart = true;
  disks = [];
  interfaces = nic ∷ [];
  external_id = none;
}

abbrev pub container : Container
container = record {
  source = "proxmox";
  source_instance = "pve";
  legacy_identity_owner = true;
  source_id = "proxmox:node1:lxc:200";
  node_source_id = "proxmox:node1";
  vmid = "200";
  original_name = "Cache";
  normalized_name = "cache";
  status = "running";
  architecture = some "amd64";
  os_type = some "debian";
  vcpus = 1;
  memory_bytes = 512;
  swap_bytes = 0;
  autostart = false;
  unprivileged = true;
  disks = [];
  interfaces = [];
}

abbrev pub host : Host
host = record {
  source = "proxmox";
  source_instance = "pve";
  legacy_identity_owner = true;
  source_id = "proxmox:node1";
  original_name = "Node1";
  normalized_name = "node1";
  management_ip = some "10.0.0.1";
  hypervisor = "Proxmox VE";
  hypervisor_version = some "8.2";
  cpu = record { model = none; vendor = none; sockets = 1; cores = 4; logical_cpus = 8 };
  memory_bytes = 4096;
  disks = [];
  virtual_machines = vm ∷ [];
  containers = container ∷ [];
}
