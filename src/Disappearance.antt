-- ===== src/Disappearance.antt =====
-- netbox_sync/netbox_disappearance.py: which managed objects of NetBox were not discovered. The
-- report deletes nothing; what it prints is returned here.
pub mod Identities
pub mod Owned
pub mod Laws
use infra_sync.Prelude.{
  ℕ, ◌+◌, String, Bool, true, false, not, ◌&&◌, ◌||◌, Option, none, some, List, [], ◌∷◌, ◌++◌,
  if◌then◌else◌, Result, ok, err, ◌>>=◌, eqb, ltb, length, keep, any, ◌==◌,
}
use infra_sync.Json.{Json, Fields}
use infra_sync.Discovery.{Host, Nic, VirtualMachine, Container, machine, lxc}
use infra_sync.Identity.Record.{SourceIdentity}
use infra_sync.Identity.Builders.{
  virtual_machine_source_identity, lxc_source_identity, virtual_machine_nic_source_identity,
  lxc_nic_source_identity,
}
use infra_sync.Metadata.Machines.{vm_identity_source_id}
use infra_sync.Metadata.Containers.{lxc_identity_source_id}
use infra_sync.Metadata.Nics.{nic_identity_source_id, nic_identity}
use infra_sync.Disappearance.Identities.{
  Identity, scope_of, v2, v1, Scope, is_member, managed_identity, ReportError,
  target_site_not_found, ambiguous_cluster, bad_record, lifted,
}

pub record Interface : Type 0 where
  pub id : ℕ
  pub name : String
  pub virtual_machine : Option ℕ
  pub custom_fields : Fields

pub record Vm : Type 0 where
  pub id : ℕ
  pub name : String
  pub custom_fields : Fields

pub record Report : Type 0 where
  pub managed_guests : ℕ
  pub missing_guests : List (Vm × Identity)
  pub managed_interfaces : ℕ
  pub missing_interfaces : List (Vm × Interface × Identity)

-- `interfaces_by_vm.get(vm.id, [])`
unfoldable pub interfaces_of : ℕ → List Interface → List Interface
interfaces_of vm_id interfaces =
    keep (λ (i : Interface). elim i.virtual_machine [ none ↦ false | some n ↦ eqb n vm_id ])
      interfaces

module _ (print : Json → String) (scope : Scope) (guests nics : List Identity) where
  -- One interface of such a guest: the body of the inner loop.
  unfoldable pub add_interface :
      Vm
      → Interface
      → Option Identity
      → ℕ × List (Vm × Interface × Identity)
      → ℕ × List (Vm × Interface × Identity)
  add_interface vm interface none others = others
  add_interface vm interface (some identity) (managed, missing) = (
    managed + 1,
    if is_member identity nics then missing else (vm, interface, identity) ∷ missing,
  )

  -- The interfaces of a guest that was discovered: how many are managed, and which are missing.
  unfoldable pub scan_interfaces :
      Vm → List Interface → Result ReportError (ℕ × List (Vm × Interface × Identity))
  unfolding add_interface
  scan_interfaces vm [] = ok (0, [])
  scan_interfaces vm (interface ∷ rest) = do
    found ← managed_identity print scope interface.custom_fields
    others ← scan_interfaces vm rest
    ok (add_interface vm interface found others)

  abbrev no_report : Report
  no_report = record {
    managed_guests = 0;
    missing_guests = [];
    managed_interfaces = 0;
    missing_interfaces = [];
  }

  abbrev add_missing : Vm → Identity → Report → Report
  add_missing vm identity r = record r {
    managed_guests = r.managed_guests + 1;
    missing_guests = (vm, identity) ∷ r.missing_guests;
  }

  abbrev add_present : ℕ × List (Vm × Interface × Identity) → Report → Report
  add_present (managed, missing) r = record r {
    managed_guests = r.managed_guests + 1;
    managed_interfaces = managed + r.managed_interfaces;
    missing_interfaces = missing ++ r.missing_interfaces;
  }

  -- One guest: the body of the loop. The interfaces of a missing guest are not looked at.
  unfoldable pub scan_guest :
      List Interface → Vm → Option Identity → Result ReportError (Report → Report)
  unfolding interfaces_of scan_interfaces
  scan_guest all_interfaces vm none = ok (λ r. r)
  scan_guest all_interfaces vm (some identity) =
      if not (is_member identity guests) then ok (add_missing vm identity) else do
        found ← scan_interfaces vm (interfaces_of vm.id all_interfaces)
        ok (add_present found)

  unfoldable pub scan_guests : List Interface → List Vm → Result ReportError Report
  unfolding scan_guest
  scan_guests all_interfaces [] = ok no_report
  scan_guests all_interfaces (vm ∷ vms) = do
    found ← managed_identity print scope vm.custom_fields
    add ← scan_guest all_interfaces vm found
    rest ← scan_guests all_interfaces vms
    ok (add rest)

-- The two identities under which a discovered guest or interface may be stored.
unfoldable pub vm_identities : VirtualMachine → Result ReportError (List Identity)
vm_identities vm = do
  i ← lifted (virtual_machine_source_identity vm)
  ok (v1 vm.source (vm_identity_source_id vm) ∷ v2 i ∷ [])

unfoldable pub lxc_identities : Container → Result ReportError (List Identity)
lxc_identities container = do
  i ← lifted (lxc_source_identity container)
  ok (v1 container.source (lxc_identity_source_id container) ∷ v2 i ∷ [])

unfoldable pub vm_nic_identities : VirtualMachine → Nic → Result ReportError (List Identity)
vm_nic_identities vm nic = do
  i ← lifted (virtual_machine_nic_source_identity vm nic)
  ok (v1 vm.source (nic_identity_source_id (machine vm) nic) ∷ v2 i ∷ [])

unfoldable pub lxc_nic_identities : Container → Nic → Result ReportError (List Identity)
lxc_nic_identities container nic = do
  i ← lifted (lxc_nic_source_identity container nic)
  ok (v1 container.source (nic_identity_source_id (lxc container) nic) ∷ v2 i ∷ [])

-- `for x in xs: result.update(f(x))`; the sets are lists, which differ only in repetitions.
unfoldable pub gather :
    {A : Type 0}
    → (A → Result ReportError (List Identity))
    → List A
    → Result ReportError (List Identity)
gather f [] = ok []
gather f (x ∷ xs) = do one ← f x; rest ← gather f xs; ok (one ++ rest)

-- The two sets of what was discovered.
pub record Found : Type 0 where
  pub guests : List Identity
  pub nics : List Identity

abbrev pub join_found : Found → Found → Found
join_found a b = record { guests = a.guests ++ b.guests; nics = a.nics ++ b.nics }

unfoldable pub add_vm : VirtualMachine → Result ReportError Found
unfolding vm_identities vm_nic_identities gather
add_vm vm = do
  guests ← vm_identities vm
  nics ← gather (vm_nic_identities vm) vm.interfaces
  ok (record { guests = guests; nics = nics })

unfoldable pub add_container : Container → Result ReportError Found
unfolding lxc_identities lxc_nic_identities gather
add_container container = do
  guests ← lxc_identities container
  nics ← gather (lxc_nic_identities container) container.interfaces
  ok (record { guests = guests; nics = nics })

unfoldable pub gather_found :
    {A : Type 0} → (A → Result ReportError Found) → List A → Result ReportError Found
gather_found f [] = ok (record { guests = []; nics = [] })
gather_found f (x ∷ xs) = do one ← f x; rest ← gather_found f xs; ok (join_found one rest)

-- `for host in hosts`: the virtual machines of a host, then its containers.
unfoldable pub add_host_guests : Host → Result ReportError Found
unfolding gather_found add_vm add_container
add_host_guests host = do
  vms ← gather_found add_vm host.virtual_machines
  containers ← gather_found add_container host.containers
  ok (join_found vms containers)

pub record Cluster : Type 0 where
  pub id : ℕ
  pub scope_type : Option String
  pub scope_id : Option ℕ

-- What the report asks NetBox for: a site by its slug, the clusters of a name, the machines of a
-- cluster, all interfaces.
pub record NetBox : Type 0 where
  pub site : String → Option ℕ
  pub clusters : String → List Cluster
  pub virtual_machines : ℕ → List Vm
  pub interfaces : List Interface

unfoldable pub in_site : ℕ → Cluster → Bool
in_site site_id c =
    elim c.scope_type [ none ↦ false | some t ↦ t == "dcim.site" ]
    && elim c.scope_id [ none ↦ false | some n ↦ eqb n site_id ]

abbrev pub only_cluster : List Cluster → Result ReportError Cluster
only_cluster [] = err ambiguous_cluster
only_cluster (c ∷ []) = ok c
only_cluster (c ∷ d ∷ cs) = err ambiguous_cluster

unfoldable pub target_cluster : NetBox → String → String → Result ReportError Cluster
unfolding in_site
target_cluster nb site_slug cluster_name = elim (nb.site site_slug) [
  | none ↦ err target_site_not_found
  | some site_id ↦ only_cluster (keep (in_site site_id) (nb.clusters cluster_name))
]

unfoldable pub report_missing_managed_objects :
    (Json → String)
    → NetBox
    → List Host
    → (site_slug cluster_name : String) → Result ReportError Report
unfolding target_cluster gather_found add_host_guests scope_of scan_guests
report_missing_managed_objects print nb hosts site_slug cluster_name = do
  cluster ← target_cluster nb site_slug cluster_name
  found ← gather_found add_host_guests hosts
  scan_guests print (scope_of hosts) found.guests found.nics nb.interfaces
      (nb.virtual_machines cluster.id)
