-- ===== src/Metadata/Nics.antt =====
-- netbox_sync/netbox_vm_interface_metadata.py
use Prim.Native.String.{◌++◌}
use infra_sync.Prelude.{
  ℕ, String, Bool, true, false, not, ◌||◌, none, some, List, [], ◌∷◌, ◌==◌, eqb, if◌then◌else◌,
  Result, ok, ◌>>=◌,
}
use infra_sync.Json.{Json, str, Fields, update}
use infra_sync.Discovery.{Nic, Guest, machine, lxc}
use infra_sync.Identity.Record.{IdentityError, SourceIdentity, make_identity}
use infra_sync.Identity.Rank.{match_rank}
use infra_sync.Identity.Merge.{merge_source_identities, merge_original_name}
use infra_sync.Identity.Select.{select_best}
use infra_sync.Identity.Builders.{virtual_machine_nic_source_identity, lxc_nic_source_identity}
use infra_sync.Metadata.{local_source_id, sync_items, text_or_null, num_or_null}

-- The attributes that both classes have, read off either.
abbrev guest_source : Guest → String
guest_source (machine vm) = vm.source
guest_source (lxc c) = c.source

abbrev guest_source_id : Guest → String
guest_source_id (machine vm) = vm.source_id
guest_source_id (lxc c) = c.source_id

abbrev guest_vmid : Guest → String
guest_vmid (machine vm) = vm.vmid
guest_vmid (lxc c) = c.vmid

abbrev pub guest_owner : Guest → Bool
guest_owner (machine vm) = vm.legacy_identity_owner
guest_owner (lxc c) = c.legacy_identity_owner

-- `vm_identity_source_id` is applied to containers too.
unfoldable pub nic_identity_source_id : Guest → Nic → String
unfolding local_source_id
nic_identity_source_id guest nic =
    local_source_id (guest_source guest) (guest_source_id guest) ++ (":" ++ nic.name)

unfoldable pub nic_identity : Guest → Nic → Result IdentityError SourceIdentity
nic_identity (machine vm) nic = virtual_machine_nic_source_identity vm nic
nic_identity (lxc c) nic = lxc_nic_source_identity c nic

-- `not stable_key or str(stable_key) == str(nic.name)`
abbrev same_key : Nic → Bool
same_key nic = elim nic.external_id [ none ↦ true | some key ↦ key == "" || key == nic.name ]

unfoldable pub nic_sync_identity_match_rank :
    (Json → String) → Fields → Guest → Nic → Result IdentityError ℕ
unfolding nic_identity nic_identity_source_id
nic_sync_identity_match_rank print custom_fields guest nic = do
  desired ← nic_identity guest nic
  rank ←
      match_rank print custom_fields desired (nic_identity_source_id guest nic ∷ [])
        (guest_owner guest)
  if not (eqb rank 0)
        || not (desired.type == "proxmox")
        || not (desired.kind == "lxc-nic")
        || same_key nic
      then ok rank
      else
          -- the v2 identity that was once written from the displayed name
          make_identity (record desired { external_id = guest_vmid guest ++ (":" ++ nic.name) })
          >>= λ legacy_v2. match_rank print custom_fields legacy_v2 [] false

unfoldable pub find_nic_sync_identity_matches :
    {A : Type 0}
    → (Json → String)
    → (A → Fields)
    → List A
    → Guest
    → Nic
    → Result IdentityError (List A)
unfolding nic_sync_identity_match_rank
find_nic_sync_identity_matches print candidate_fields candidates guest nic =
    select_best (λ c. nic_sync_identity_match_rank print (candidate_fields c) guest nic) candidates

-- The fields of an interface beside the two that every builder writes.
unfoldable pub nic_items : Nic → List (String × Json)
nic_items nic =
    ("source_bridge", text_or_null nic.bridge) ∷ ("source_vlan_id", num_or_null nic.vlan_id) ∷ []

unfoldable pub build_nic_custom_fields :
    (print sort_key : Json → String) → Guest → Nic → Fields → Result IdentityError Fields
unfolding nic_identity nic_items
build_nic_custom_fields print sort_key guest nic existing = do
  desired ← nic_identity guest nic
  identities ← merge_source_identities print sort_key existing desired
  names ← merge_original_name existing desired (str nic.name)
  ok (update (sync_items identities names (nic_items nic)) existing)

abbrev pub managed_vm_interface_custom_fields : List String
managed_vm_interface_custom_fields =
    "sync_identities" ∷ "sync_original_names" ∷ "source_bridge" ∷ "source_vlan_id" ∷ []
