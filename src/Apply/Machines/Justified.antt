-- ===== src/Apply/Machines/Justified.antt =====
-- Why the preflight of a machine lets it be written.
use mathlib.Core.Path.{subst}
use infra_sync.Prelude.{
  ℕ, ◌≡◌, refl, inl, inr, true, none, some, List, [], ◌∷◌, ok, >>=-eq-ok, Result-cases, Bool-cases,
  ok_eq, All,
}
use infra_sync.Json.{null}
use infra_sync.Discovery.{VirtualMachine}
use infra_sync.Metadata.Machines.{find_vm_sync_identity_matches}
use infra_sync.Apply.NetBox.{Machine, Python}
use infra_sync.Apply.Machines.{
  Context, Action, blocked, create, matched, tenant_id, name_matches, managed_metadata, vm_changes,
}
use infra_sync.Apply.Machines.Preflight.{
  in_cluster, create_context, match_context, by_name, unless_conflict, by_identity, preflight_vm,
  preflight_all,
}

module _ (py : Python) where
  -- Why a context may be written: no object has the identity and none without a tenant the name, or
  -- one object of the target cluster has the identity and no other of its tenant the name.
  abbrev pub IsJustifiedAs :
      (all_machines target_machines : List Machine) → ℕ → VirtualMachine → Action → Type 0
  IsJustifiedAs all_machines target_machines cluster vm (blocked reason candidates) = Unit
  IsJustifiedAs all_machines target_machines cluster vm (create desired) =
      (find_vm_sync_identity_matches py.print (λ (m : Machine). m.custom_fields) all_machines vm
        ≡ ok [])
      × (name_matches py target_machines vm.original_name null none ≡ [])
  IsJustifiedAs all_machines target_machines cluster vm (matched existing changes) =
      (find_vm_sync_identity_matches py.print (λ (m : Machine). m.custom_fields) all_machines vm
        ≡ ok (existing ∷ []))
      × (in_cluster py cluster existing ≡ true)
      × (name_matches py target_machines vm.original_name (tenant_id py existing) (some existing.id)
          ≡ [])

  abbrev pub IsJustified : (all_machines target_machines : List Machine) → ℕ → Context → Type 0
  IsJustified all_machines target_machines cluster c =
      IsJustifiedAs all_machines target_machines cluster c.vm c.action

  module _ {E : Type 0} (all_machines target_machines : List Machine) (cluster : ℕ) where
    module _ (vm : VirtualMachine) (c : Context) where
      by_name-IsJustified :
          (ms : List Machine)
          → name_matches py target_machines vm.original_name null none ≡ ms
          → find_vm_sync_identity_matches py.print
              (λ (m : Machine). m.custom_fields)
              all_machines
              vm
            ≡ ok []
          → by_name py {E = E} all_machines target_machines vm cluster ms ≡ ok c
          → IsJustified all_machines target_machines cluster c
      unfolding create_context
      by_name-IsJustified [] names found h =
          let (metadata, _, done) = >>=-eq-ok (managed_metadata py {E = E} vm _) _ h in
          subst (IsJustified all_machines target_machines cluster) (ok_eq done) (found, names)
      by_name-IsJustified (m ∷ []) names found h =
          subst (IsJustified all_machines target_machines cluster) (ok_eq h) tt
      by_name-IsJustified (m ∷ n ∷ ms) names found h =
          subst (IsJustified all_machines target_machines cluster) (ok_eq h) tt

      unless_conflict-IsJustified :
          (existing : Machine) (ms : List Machine)
          → name_matches py target_machines vm.original_name
              (tenant_id py existing)
              (some existing.id)
            ≡ ms
          → find_vm_sync_identity_matches py.print
              (λ (m : Machine). m.custom_fields)
              all_machines
              vm
            ≡ ok (existing ∷ [])
          → in_cluster py cluster existing ≡ true
          → unless_conflict py {E = E} all_machines target_machines vm cluster existing ms ≡ ok c
          → IsJustified all_machines target_machines cluster c
      unfolding match_context
      unless_conflict-IsJustified existing [] names found inside h =
          let (metadata, _, more) =
            >>=-eq-ok (managed_metadata py {E = E} vm existing.custom_fields) _ h in
          let (changes, _, done) =
            >>=-eq-ok (vm_changes py existing vm cluster metadata.0 metadata.1) _ more in
          subst (IsJustified all_machines target_machines cluster) (ok_eq done)
            (found, inside, names)
      unless_conflict-IsJustified existing (m ∷ ms) names found inside h =
          subst (IsJustified all_machines target_machines cluster) (ok_eq h) tt

      by_identity-IsJustified :
          (ms : List Machine)
          → find_vm_sync_identity_matches py.print
              (λ (m : Machine). m.custom_fields)
              all_machines
              vm
            ≡ ok ms
          → by_identity py {E = E} all_machines target_machines vm cluster ms ≡ ok c
          → IsJustified all_machines target_machines cluster c
      by_identity-IsJustified [] found h = by_name-IsJustified _ refl found h
      by_identity-IsJustified (existing ∷ []) found h =
          elim (Bool-cases (in_cluster py cluster existing)) [
            | inl inside ↦ unless_conflict-IsJustified existing _ refl found inside (rw inside at h)
            | inr outside ↦
                subst (IsJustified all_machines target_machines cluster) (ok_eq (rw outside at h))
                  tt
          ]
      by_identity-IsJustified (m ∷ n ∷ ms) found h =
          subst (IsJustified all_machines target_machines cluster) (ok_eq h) tt

      preflight_vm-IsJustified :
          preflight_vm py {E = E} all_machines target_machines vm cluster ≡ ok c
          → IsJustified all_machines target_machines cluster c
      unfolding preflight_vm
      preflight_vm-IsJustified h =
          elim (Result-cases (
            find_vm_sync_identity_matches py.print (λ (m : Machine). m.custom_fields) all_machines
              vm)) [
                | inl (ms, found) ↦ by_identity-IsJustified ms found (rw found at h)
                | inr (e, failed) ↦ absurd (cc (rw failed at h))
              ]

    pub preflight_all-IsJustified :
        (vms : List VirtualMachine) (cs : List Context)
        → preflight_all py {E = E} all_machines target_machines cluster vms ≡ ok cs
        → All (IsJustified all_machines target_machines cluster) cs
    unfolding preflight_all
    preflight_all-IsJustified [] cs h =
        subst (All (IsJustified all_machines target_machines cluster)) (ok_eq h) tt
    preflight_all-IsJustified (vm ∷ vms) cs h =
        let (c, one, more) =
          >>=-eq-ok (preflight_vm py all_machines target_machines vm cluster) _ h in
        let (rest, others, done) =
          >>=-eq-ok (preflight_all py all_machines target_machines cluster vms) _ more in
        subst (All (IsJustified all_machines target_machines cluster)) (ok_eq done)
          (preflight_vm-IsJustified vm c one, preflight_all-IsJustified vms rest others)
