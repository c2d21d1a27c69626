-- ===== src/Disappearance/Owned.antt =====
-- The identities of what was discovered, and the target cluster, said without the loops of
-- netbox_sync/netbox_disappearance.py that collect them.
use infra_sync.Prelude.{
  ℕ, String, ◌≡◌, refl, sym, ap, ◌⊎◌, inl, inr, true, false, ◌&&◌, Bool-cases, >>=-eq-ok, Option,
  none, some, List, [], ◌∷◌, ◌++◌, arith, eq_iff, eqb, ◌==◌, Result, ok, err, keep, All,
}
use mathlib.Core.Path.{subst}
use infra_sync.Prelude.Members.{IsAmong, IsAmong-keep, keep-IsAmong, All_of}
use infra_sync.Discovery.{Host, VirtualMachine, Container}
use infra_sync.Disappearance.{
  NetBox, Cluster, Found, target_cluster, in_site, only_cluster, gather, gather_found, add_vm,
  add_container, add_host_guests, vm_identities, lxc_identities, vm_nic_identities,
  lxc_nic_identities,
}
use infra_sync.Disappearance.Identities.{Identity, ReportError, target_site_not_found}

abbrev pub each_of : {A : Type 0} → (A → List Identity) → List A → List Identity
each_of f [] = []
each_of f (x ∷ xs) = f x ++ each_of f xs

abbrev pub ids_in : Result ReportError (List Identity) → List Identity
ids_in (ok ids) = ids
ids_in (err e) = []

-- The identities of all virtual machines and containers of the hosts.
unfoldable pub owned_guests : List Host → List Identity
owned_guests hosts =
    each_of
      (λ (h : Host).
        each_of (λ vm. ids_in (vm_identities vm)) h.virtual_machines
        ++ each_of (λ c. ids_in (lxc_identities c)) h.containers)
      hosts

-- The identities of all interfaces of those.
unfoldable pub owned_nics : List Host → List Identity
owned_nics hosts =
    each_of
      (λ (h : Host).
        each_of
          (λ (vm : VirtualMachine). each_of (λ n. ids_in (vm_nic_identities vm n)) vm.interfaces)
          h.virtual_machines
        ++ each_of (λ (c : Container). each_of (λ n. ids_in (lxc_nic_identities c n)) c.interfaces)
            h.containers)
      hosts

-- What was found is what was owned.
abbrev IsOwned : Found → List Identity → List Identity → Type 0
IsOwned found guests nics = (found.guests ≡ guests) × (found.nics ≡ nics)

gather-each_of :
    {A : Type 0} (f : A → Result ReportError (List Identity)) (xs : List A) (ids : List Identity)
    → gather f xs ≡ ok ids
    → ids ≡ each_of (λ x. ids_in (f x)) xs
unfolding gather
gather-each_of f [] ids h = cc h
gather-each_of f (x ∷ xs) ids h =
    let (one, first, more) = >>=-eq-ok (f x) _ h in
    let (rest, others, done) = >>=-eq-ok (gather f xs) _ more in
    rw first (cc (gather-each_of f xs rest others, done))

module _ {A : Type 0} (f : A → Result ReportError Found) (g n : A → List Identity)
    (each : (x : A) (one : Found) → f x ≡ ok one → IsOwned one (g x) (n x)) where
  gather_found-IsOwned :
      (xs : List A) (found : Found)
      → gather_found f xs ≡ ok found
      → IsOwned found (each_of g xs) (each_of n xs)
  unfolding gather_found
  gather_found-IsOwned [] found h = (cc h, cc h)
  gather_found-IsOwned (x ∷ xs) found h =
      let (one, first, more) = >>=-eq-ok (f x) _ h in
      let (rest, others, done) = >>=-eq-ok (gather_found f xs) _ more in
      let (guests, nics) = each x one first in
      let (guests', nics') = gather_found-IsOwned xs rest others in
      (cc (guests, guests', done), cc (nics, nics', done))

add_vm-IsOwned :
    (vm : VirtualMachine) (one : Found)
    → add_vm vm ≡ ok one
    → IsOwned one
        (ids_in (vm_identities vm))
        (each_of (λ n. ids_in (vm_nic_identities vm n)) vm.interfaces)
unfolding add_vm
add_vm-IsOwned vm one h =
    let (guests, first, more) = >>=-eq-ok (vm_identities vm) _ h in
    let (nics, others, done) = >>=-eq-ok (gather (vm_nic_identities vm) vm.interfaces) _ more in
    (rw first (cc done), cc (gather-each_of (vm_nic_identities vm) vm.interfaces nics others, done))

add_container-IsOwned :
    (c : Container) (one : Found)
    → add_container c ≡ ok one
    → IsOwned one
        (ids_in (lxc_identities c))
        (each_of (λ n. ids_in (lxc_nic_identities c n)) c.interfaces)
unfolding add_container
add_container-IsOwned c one h =
    let (guests, first, more) = >>=-eq-ok (lxc_identities c) _ h in
    let (nics, others, done) = >>=-eq-ok (gather (lxc_nic_identities c) c.interfaces) _ more in
    (rw first (cc done), cc (gather-each_of (lxc_nic_identities c) c.interfaces nics others, done))

pub gather_hosts-IsOwned :
    (hosts : List Host) (found : Found)
    → gather_found add_host_guests hosts ≡ ok found
    → IsOwned found (owned_guests hosts) (owned_nics hosts)
unfolding owned_guests owned_nics add_host_guests
gather_hosts-IsOwned hosts found h = gather_found-IsOwned add_host_guests _ _ one_host hosts found h
  where
    one_host :
        (host : Host) (one : Found)
        → add_host_guests host ≡ ok one
        → IsOwned one
            (each_of (λ vm. ids_in (vm_identities vm)) host.virtual_machines
              ++ each_of (λ c. ids_in (lxc_identities c)) host.containers)
            (each_of
                (λ (vm : VirtualMachine).
                  each_of (λ n. ids_in (vm_nic_identities vm n)) vm.interfaces)
                host.virtual_machines
              ++ each_of
                  (λ (c : Container). each_of (λ n. ids_in (lxc_nic_identities c n)) c.interfaces)
                  host.containers)
    one_host host one h' =
        let (vms, first, more) = >>=-eq-ok (gather_found add_vm host.virtual_machines) _ h' in
        let (containers, others, done) =
          >>=-eq-ok (gather_found add_container host.containers) _ more in
        let (guests, nics) = gather_found-IsOwned add_vm _ _ add_vm-IsOwned _ vms first in
        let (guests', nics') =
          gather_found-IsOwned add_container _ _ add_container-IsOwned _ containers others in
        (cc (guests, guests', done), cc (nics, nics', done))

-- The cluster is one of those of the name, its scope is the site, and that of no other is.
pub record IsTarget (nb : NetBox) (site_slug cluster_name : String) (cluster : Cluster)
    : Type 0 where
  pub site_id : ℕ
  pub site : nb.site site_slug ≡ some site_id
  pub named : IsAmong cluster (nb.clusters cluster_name)
  pub of_site : (cluster.scope_type ≡ some "dcim.site") × (cluster.scope_id ≡ some site_id)
  pub only :
      All
        (λ (c : Cluster).
          (c ≡ cluster) ⊎ (¬ ((c.scope_type ≡ some "dcim.site") × (c.scope_id ≡ some site_id))))
        (nb.clusters cluster_name)

in_site-scope :
    (site_id : ℕ) (c : Cluster)
    → in_site site_id c ≡ true
    → (c.scope_type ≡ some "dcim.site") × (c.scope_id ≡ some site_id)
unfolding in_site
in_site-scope site_id c h = go c.scope_type c.scope_id h
  where
    go :
        (t : Option String) (n : Option ℕ)
        → (elim t [ none ↦ false | some u ↦ u == "dcim.site" ]
            && elim n [ none ↦ false | some m ↦ eqb m site_id ])
          ≡ true
        → (t ≡ some "dcim.site") × (n ≡ some site_id)
    go none n k = absurd (cc k)
    go (some u) none k = absurd (ground arith)
    go (some u) (some m) k =
        (ap (λ x. some x) (ground (arith, eq_iff u "dcim.site")), ap (λ x. some x) (ground arith))

scope-in_site :
    (site_id : ℕ) (c : Cluster)
    → c.scope_type ≡ some "dcim.site"
    → c.scope_id ≡ some site_id
    → in_site site_id c ≡ true
unfolding in_site
scope-in_site site_id c t n = rw (t, n) (ground arith)

only_cluster-eq-ok : (cs : List Cluster) (c : Cluster) → only_cluster cs ≡ ok c → cs ≡ c ∷ []
only_cluster-eq-ok [] c h = absurd (cc h)
only_cluster-eq-ok (d ∷ []) c h = cc h
only_cluster-eq-ok (d ∷ d' ∷ ds) c h = absurd (cc h)

module _ (site_id : ℕ) (cluster : Cluster) (cs : List Cluster)
    (h : keep (in_site site_id) cs ≡ cluster ∷ []) where
  kept_cluster : IsAmong cluster cs × (in_site site_id cluster ≡ true)
  kept_cluster =
      IsAmong-keep (in_site site_id) cluster cs
        (subst (λ (l : List Cluster). IsAmong cluster l) (sym h) (inl refl))

  same_or_outside :
      (c : Cluster)
      → IsAmong c cs
      → (c ≡ cluster) ⊎ (¬ ((c.scope_type ≡ some "dcim.site") × (c.scope_id ≡ some site_id)))
  same_or_outside c m = elim (Bool-cases (in_site site_id c)) [
    | inl e ↦
        elim (subst (λ (l : List Cluster). IsAmong c l) h
          (keep-IsAmong (in_site site_id) c cs m e)) [
            | inl same ↦ inl same
            | inr none_left ↦ absurd none_left
          ]
    | inr e ↦ inr (λ s. cc (e, scope-in_site site_id c s.0 s.1))
  ]

pub target_cluster-IsTarget :
    (nb : NetBox) (site_slug cluster_name : String) (cluster : Cluster)
    → target_cluster nb site_slug cluster_name ≡ ok cluster
    → IsTarget nb site_slug cluster_name cluster
unfolding target_cluster
target_cluster-IsTarget nb site_slug cluster_name cluster h = go (nb.site site_slug) refl h
  where
    go :
        (o : Option ℕ)
        → nb.site site_slug ≡ o
        → elim o [
          | none ↦ err target_site_not_found
          | some site_id ↦ only_cluster (keep (in_site site_id) (nb.clusters cluster_name))
        ]
          ≡ ok cluster
        → IsTarget nb site_slug cluster_name cluster
    go none e k = absurd (cc k)
    go (some site_id) e k =
        let cs = nb.clusters cluster_name in
        let kept = only_cluster-eq-ok (keep (in_site site_id) cs) cluster k in
        let (member, inside) = kept_cluster site_id cluster cs kept in
        record {
          site_id = site_id;
          site = e;
          named = member;
          of_site = in_site-scope site_id cluster inside;
          only = All_of _ cs (same_or_outside site_id cluster cs kept);
        }
