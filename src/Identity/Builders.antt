-- ===== src/Identity/Builders.antt =====
-- The identities of discovered objects: the builders of netbox_sync/source_identity.py, over the
-- classes of netbox_sync/discovery.py.
use Prim.Native.String.{◌++◌}
use infra_sync.Prelude.{
  String, ◌≡◌, ◌≢◌, Option, none, some, arith, ◌==◌, eq_iff, if◌then◌else◌, Result, ok,
}
use infra_sync.Discovery.{Nic, VirtualMachine, Container, Host}
use infra_sync.Identity.Record.{
  IdentityError, SourceIdentity, IsValid, make_identity, make_identity-eq-ok, schema_v2,
}

-- `getattr(x, 'external_id', None) or fallback`
unfoldable pub stable_id : Option String → String → String
stable_id none fallback = fallback
stable_id (some s) fallback = if s == "" then fallback else s

-- `_identity`
unfoldable pub identity : String → String → String → String → Result IdentityError SourceIdentity
identity source source_instance kind external_id = make_identity (record {
  schema = schema_v2;
  type = source;
  instance_name = source_instance;
  kind = kind;
  external_id = external_id;
})

unfoldable pub host_source_identity : Host → Result IdentityError SourceIdentity
host_source_identity host = identity host.source host.source_instance "host" host.source_id

unfoldable pub qemu_source_identity : VirtualMachine → Result IdentityError SourceIdentity
qemu_source_identity vm = identity vm.source vm.source_instance "qemu" vm.vmid

unfoldable pub lxc_source_identity : Container → Result IdentityError SourceIdentity
lxc_source_identity container =
    identity container.source container.source_instance "lxc" container.vmid

unfoldable pub qemu_nic_source_identity : VirtualMachine → Nic → Result IdentityError SourceIdentity
unfolding stable_id
qemu_nic_source_identity vm nic =
    identity vm.source vm.source_instance "qemu-nic"
      (vm.vmid ++ (":" ++ stable_id nic.external_id nic.name))

unfoldable pub virtual_machine_source_identity :
    VirtualMachine → Result IdentityError SourceIdentity
unfolding stable_id qemu_source_identity
virtual_machine_source_identity vm =
    if vm.source == "esxi"
    then identity vm.source vm.source_instance "vm" (stable_id vm.external_id vm.vmid)
    else qemu_source_identity vm

unfoldable pub virtual_machine_nic_source_identity :
    VirtualMachine → Nic → Result IdentityError SourceIdentity
unfolding stable_id qemu_nic_source_identity
virtual_machine_nic_source_identity vm nic =
    if vm.source == "esxi"
    then identity vm.source vm.source_instance "vm-nic"
        (stable_id vm.external_id vm.vmid ++ (":" ++ stable_id nic.external_id nic.name))
    else qemu_nic_source_identity vm nic

unfoldable pub lxc_nic_source_identity : Container → Nic → Result IdentityError SourceIdentity
unfolding stable_id
lxc_nic_source_identity container nic =
    identity container.source container.source_instance "lxc-nic"
      (container.vmid ++ (":" ++ stable_id nic.external_id nic.name))

-- An identity that is built is valid and holds just what it was built from.
identity-eq-ok :
    (source source_instance kind external_id : String) (i : SourceIdentity)
    → identity source source_instance kind external_id ≡ ok i
    → IsValid i
      × (i.type ≡ source)
      × (i.instance_name ≡ source_instance)
      × (i.kind ≡ kind)
      × (i.external_id ≡ external_id)
unfolding identity
identity-eq-ok source source_instance kind external_id i h =
    let r : SourceIdentity = record {
      schema = schema_v2;
      type = source;
      instance_name = source_instance;
      kind = kind;
      external_id = external_id;
    } in
    let (valid, e) = (make_identity-eq-ok r i).0 h in
    (rw e at valid, ground arith, ground arith, ground arith, ground arith)

-- Two containers that get one identity have one source type, one instance and one number: the
-- identity depends neither on the node nor on the name.
pub lxc_source_identity-eq :
    (a b : Container) (i : SourceIdentity)
    → lxc_source_identity a ≡ ok i
    → lxc_source_identity b ≡ ok i
    → (a.source ≡ b.source) × (a.source_instance ≡ b.source_instance) × (a.vmid ≡ b.vmid)
unfolding lxc_source_identity
lxc_source_identity-eq a b i p q = ground (
  arith,
  identity-eq-ok a.source a.source_instance "lxc" a.vmid i p,
  identity-eq-ok b.source b.source_instance "lxc" b.vmid i q,
)

virtual_machine-kind :
    (a : VirtualMachine) (i : SourceIdentity)
    → virtual_machine_source_identity a ≡ ok i
    → (i.kind ≡ (if a.source == "esxi" then "vm" else "qemu")) × IsValid i
unfolding virtual_machine_source_identity qemu_source_identity
virtual_machine-kind a i h = ground (
  arith,
  identity-eq-ok a.source a.source_instance "vm" (stable_id a.external_id a.vmid) i,
  identity-eq-ok a.source a.source_instance "qemu" a.vmid i,
)

-- A virtual machine and a container never share an identity, whatever their numbers.
pub virtual_machine-ne-lxc :
    (a : VirtualMachine) (b : Container) (i j : SourceIdentity)
    → virtual_machine_source_identity a ≡ ok i
    → lxc_source_identity b ≡ ok j
    → i ≢ j
unfolding lxc_source_identity
virtual_machine-ne-lxc a b i j p q same = ground (
  arith,
  virtual_machine-kind a i p,
  identity-eq-ok b.source b.source_instance "lxc" b.vmid j q,
  eq_iff "vm" "lxc",
  eq_iff "qemu" "lxc",
)

-- Every identity that a builder returns is valid.
pub virtual_machine_source_identity-IsValid :
    (a : VirtualMachine) (i : SourceIdentity) → virtual_machine_source_identity a ≡ ok i → IsValid i
virtual_machine_source_identity-IsValid a i h = (virtual_machine-kind a i h).1

pub lxc_source_identity-IsValid :
    (a : Container) (i : SourceIdentity) → lxc_source_identity a ≡ ok i → IsValid i
unfolding lxc_source_identity
lxc_source_identity-IsValid a i h = (identity-eq-ok a.source a.source_instance "lxc" a.vmid i h).0

pub host_source_identity-IsValid :
    (a : Host) (i : SourceIdentity) → host_source_identity a ≡ ok i → IsValid i
unfolding host_source_identity
host_source_identity-IsValid a i h =
    (identity-eq-ok a.source a.source_instance "host" a.source_id i h).0

identity-IsValid :
    (source source_instance kind external_id : String) (i : SourceIdentity)
    → identity source source_instance kind external_id ≡ ok i
    → IsValid i
identity-IsValid source source_instance kind external_id i h =
    (identity-eq-ok source source_instance kind external_id i h).0

pub virtual_machine_nic_source_identity-IsValid :
    (a : VirtualMachine) (nic : Nic) (i : SourceIdentity)
    → virtual_machine_nic_source_identity a nic ≡ ok i
    → IsValid i
unfolding virtual_machine_nic_source_identity
virtual_machine_nic_source_identity-IsValid a nic i h = ground (
  arith,
  identity-IsValid a.source a.source_instance "vm-nic"
      (stable_id a.external_id a.vmid ++ (":" ++ stable_id nic.external_id nic.name)) i,
  identity-IsValid a.source a.source_instance "qemu-nic"
      (a.vmid ++ (":" ++ stable_id nic.external_id nic.name)) i,
)

pub lxc_nic_source_identity-IsValid :
    (a : Container) (nic : Nic) (i : SourceIdentity)
    → lxc_nic_source_identity a nic ≡ ok i
    → IsValid i
unfolding lxc_nic_source_identity
lxc_nic_source_identity-IsValid a nic i h = identity-IsValid _ _ _ _ i h
