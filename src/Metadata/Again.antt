-- ===== src/Metadata/Again.antt =====
-- A second run builds the custom fields that the first one built.
use mathlib.Core.Path.{subst}
use infra_sync.Prelude.{
  String, ◌≡◌, refl, ap, sym, Bool, true, false, Option, none, some, List, [], ◌∷◌, arith, ==_refl,
  eq_iff, if◌then◌else◌, mem_text, Result, ok,
}
use infra_sync.Json.{
  Json, null, bool, num, real, str, arr, obj, Fields, end, field, get, put, get-put, of_list,
  to_list-of_list, update, get-update, keys,
}
use infra_sync.Discovery.{Nic, VirtualMachine, Container, Guest, Host}
use infra_sync.Identity.Record.{IdentityError, SourceIdentity, IsValid}
use infra_sync.Identity.Merge.{merge_original_name, renamed, original_name_key, stored_identities}
use infra_sync.Identity.Merge.Laws.{merge_again}
use infra_sync.Identity.Builders.{
  virtual_machine_source_identity, lxc_source_identity, host_source_identity,
  virtual_machine_source_identity-IsValid, lxc_source_identity-IsValid,
  host_source_identity-IsValid,
}
use infra_sync.Metadata.{sync_items}
use infra_sync.Metadata.Steps.{steps, Built, built}
use infra_sync.Metadata.Machines.{build_vm_custom_fields, normalized}
use infra_sync.Metadata.Containers.{build_lxc_custom_fields, container_items}
use infra_sync.Metadata.Devices.{build_device_custom_fields, host_items}
use infra_sync.Metadata.Nics.{build_nic_custom_fields, nic_identity, nic_items}
use infra_sync.Metadata.Laws.{nic_identity-IsValid}

-- Storing what is stored already changes nothing.
pub put_self : (k : String) (v : Json) (fs : Fields) → get k fs ≡ some v → put k v fs ≡ fs
unfolding get put
put_self k v end h = absurd (cc h)
put_self k v (field j w fs) h = ground (arith, eq_iff j k, put_self k v fs)

abbrev Holds : Fields → List (String × Json) → Type 0
Holds fs [] = Unit
Holds fs ((k, v) ∷ items) = (get k fs ≡ some v) × Holds fs items

update_self : (items : List (String × Json)) (fs : Fields) → Holds fs items → update items fs ≡ fs
unfolding update
update_self [] fs h = refl
update_self ((k, v) ∷ items) fs h = rw (put_self k v fs h.0) (update_self items fs h.1)

abbrev distinct : List String → Bool
distinct [] = true
distinct (k ∷ ks) = if mem_text k ks then false else distinct ks

Holds-update :
    (items : List (String × Json)) (fs : Fields)
    → distinct (keys items) ≡ true
    → Holds (update items fs) items
unfolding update
Holds-update [] fs h = tt
Holds-update ((k, v) ∷ items) fs h = (
  ground (arith, get-update k items (put k v fs), get-put k k v fs, ==_refl k),
  Holds-update items (put k v fs) (ground arith),
)

get-renamed :
    (key : String) (name : Json) (stored : Option Json) (names : Fields)
    → renamed key name stored ≡ ok names
    → get key names ≡ some name
get-renamed key name none names h = ground (arith, get-put key key name end, ==_refl key)
get-renamed key name (some null) names h = absurd (cc h)
get-renamed key name (some (bool b)) names h = absurd (cc h)
get-renamed key name (some (num n)) names h = absurd (cc h)
get-renamed key name (some (real s)) names h = absurd (cc h)
get-renamed key name (some (str s)) names h = absurd (cc h)
get-renamed key name (some (arr xs)) names h = absurd (cc h)
get-renamed key name (some (obj ns)) names h = ground (arith, get-put key key name ns, ==_refl key)

merge_original_name_again :
    (base after names : Fields) (desired : SourceIdentity) (name : Json)
    → merge_original_name base desired name ≡ ok names
    → get "sync_original_names" after ≡ some (obj names)
    → merge_original_name after desired name ≡ ok names
unfolding merge_original_name
merge_original_name_again base after names desired name h stored = rw stored (
    ap ok (
      put_self (original_name_key desired) name names
        (get-renamed (original_name_key desired) name (get "sync_original_names" base) names h)))

module _ (print sort_key : Json → String) (identity : Result IdentityError SourceIdentity)
    (base : Fields) (name : Json) (items : List (String × Json)) (existing result : Fields)
    (other : distinct ("sync_identities" ∷ "sync_original_names" ∷ keys items) ≡ true) where
  Built-Holds :
      (b : Built print sort_key identity base name items existing result)
      → Holds result (sync_items b.values b.names items)
  Built-Holds b =
      subst (λ r. Holds r (sync_items b.values b.names items)) (sym b.result_eq)
        (Holds-update (sync_items b.values b.names items) existing other)

  -- The three steps return the same fields once these are stored.
  pub steps_again :
      ((i : SourceIdentity) → identity ≡ ok i → IsValid i)
      → (b : Built print sort_key identity base name items existing result)
      → steps print sort_key identity result name items result ≡ ok result
  unfolding stored_identities
  steps_again valid b =
      let holds = Built-Holds b in
      let merged =
        merge_again print sort_key base result b.desired b.values (valid b.desired b.identity_eq)
          b.merged (ground (arith, holds.0, to_list-of_list b.values)) in
      let named = merge_original_name_again base result b.names b.desired name b.named holds.1.0 in
      rw (b.identity_eq, merged, named)
        (ap ok (update_self (sync_items b.values b.names items) result holds))

-- `normalized` leaves fields alone in which both values stand.
normalized_lem :
    (fs names : Fields) (values : List Json)
    → get "sync_identities" fs ≡ some (arr (of_list values))
    → get "sync_original_names" fs ≡ some (obj names)
    → normalized fs ≡ fs
unfolding normalized
normalized_lem fs names values h k = ground arith

-- The fields that a run builds for a virtual machine, the next run builds again.
pub build_vm_custom_fields_idem :
    (print sort_key : Json → String) (vm : VirtualMachine) (existing result : Fields)
    → build_vm_custom_fields print sort_key vm existing ≡ ok result
    → build_vm_custom_fields print sort_key vm result ≡ ok result
unfolding build_vm_custom_fields
build_vm_custom_fields_idem print sort_key vm existing result h =
    let b =
      built print sort_key (virtual_machine_source_identity vm) (normalized existing)
        (str vm.original_name) [] existing result h in
    let holds =
      Built-Holds print sort_key (virtual_machine_source_identity vm) (normalized existing)
        (str vm.original_name) [] existing result refl b in
    rw (normalized_lem result b.names b.values holds.0 holds.1.0) (
      steps_again print sort_key (virtual_machine_source_identity vm) (normalized existing)
        (str vm.original_name) [] existing result refl (virtual_machine_source_identity-IsValid vm)
        b)

-- The fields that a run builds for a container, the next run builds again.
pub build_lxc_custom_fields_idem :
    (print sort_key : Json → String) (container : Container) (existing result : Fields)
    → build_lxc_custom_fields print sort_key container existing ≡ ok result
    → build_lxc_custom_fields print sort_key container result ≡ ok result
unfolding build_lxc_custom_fields
build_lxc_custom_fields_idem print sort_key container existing result h =
    steps_again print sort_key (lxc_source_identity container) existing
      (str container.original_name) (container_items container) existing result refl
      (lxc_source_identity-IsValid container)
      (built print sort_key (lxc_source_identity container) existing (str container.original_name)
        (container_items container) existing result h)

-- The fields that a run builds for a host, the next run builds again.
pub build_device_custom_fields_idem :
    (print sort_key : Json → String) (host : Host) (existing result : Fields)
    → build_device_custom_fields print sort_key host existing ≡ ok result
    → build_device_custom_fields print sort_key host result ≡ ok result
unfolding build_device_custom_fields
build_device_custom_fields_idem print sort_key host existing result h =
    steps_again print sort_key (host_source_identity host) existing (str host.original_name)
      (host_items host) existing result refl (host_source_identity-IsValid host)
      (built print sort_key (host_source_identity host) existing (str host.original_name)
        (host_items host) existing result h)

-- The fields that a run builds for an interface, the next run builds again.
pub build_nic_custom_fields_idem :
    (print sort_key : Json → String) (guest : Guest) (nic : Nic) (existing result : Fields)
    → build_nic_custom_fields print sort_key guest nic existing ≡ ok result
    → build_nic_custom_fields print sort_key guest nic result ≡ ok result
unfolding build_nic_custom_fields
build_nic_custom_fields_idem print sort_key guest nic existing result h =
    steps_again print sort_key (nic_identity guest nic) existing (str nic.name) (nic_items nic)
      existing result refl (nic_identity-IsValid guest nic)
      (built print sort_key (nic_identity guest nic) existing (str nic.name) (nic_items nic)
        existing result h)
