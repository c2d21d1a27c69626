-- ===== src/Apply/Machines/Preflight.antt =====
-- `_preflight_vm`: what is to be done about one discovered machine.
use infra_sync.Prelude.{
  ℕ, Bool, true, false, not, none, some, List, [], ◌∷◌, if◌then◌else◌, Result, ok, ◌>>=◌,
}
use infra_sync.Json.{null, num, end, get, or_null}
use infra_sync.Discovery.{VirtualMachine}
use infra_sync.Metadata.Machines.{find_vm_sync_identity_matches}
use infra_sync.Apply.NetBox.{Machine, Python}
use infra_sync.Apply.Machines.{
  passed_on, ApplyError, Context, Reason, managed_metadata, name_matches, object_id, tenant_id,
  vm_changes, duplicate_sync_identity, identity_outside_target_cluster, desired_name_conflict,
  duplicate_name_candidate, adopt_candidate, blocked, create, matched,
}

module _ (py : Python) where
  open py use {print, sort_key, same, casefold}

  abbrev pub in_cluster : ℕ → Machine → Bool
  in_cluster cluster m = same (object_id (or_null (get "cluster" m.serialized))) (num cluster)

  module _ {E : Type 0} (all_machines target_machines : List Machine) (vm : VirtualMachine)
      (cluster : ℕ) where
    -- The last part of `_preflight_vm`, for a new machine and for a known one.
    unfoldable pub create_context : Result (ApplyError E) Context
    unfolding managed_metadata
    create_context = do
      (desired, changed) ← managed_metadata py vm end
      ok (record { vm = vm; action = create desired })

    unfoldable pub match_context : Machine → Result (ApplyError E) Context
    unfolding managed_metadata vm_changes
    match_context existing = do
      (desired, changed) ← managed_metadata py vm existing.custom_fields
      changes ← vm_changes py existing vm cluster desired changed
      ok (record { vm = vm; action = matched existing changes })

    abbrev block : Reason → List Machine → Result (ApplyError E) Context
    block reason candidates = ok (record { vm = vm; action = blocked reason candidates })

    -- Where no object has the identity: an object of the name, with no tenant, is not adopted.
    abbrev pub by_name : List Machine → Result (ApplyError E) Context
    by_name [] = create_context
    by_name (m ∷ []) = block adopt_candidate (m ∷ [])
    by_name (m ∷ n ∷ ms) = block duplicate_name_candidate (m ∷ n ∷ ms)

    abbrev pub unless_conflict : Machine → List Machine → Result (ApplyError E) Context
    unless_conflict existing [] = match_context existing
    unless_conflict existing (m ∷ ms) = block desired_name_conflict (m ∷ ms)

    abbrev pub by_identity : List Machine → Result (ApplyError E) Context
    by_identity [] = by_name (name_matches py target_machines vm.original_name null none)
    by_identity (existing ∷ []) =
        if not (in_cluster cluster existing)
        then block identity_outside_target_cluster (existing ∷ [])
        else unless_conflict existing (
            name_matches py target_machines vm.original_name (tenant_id py existing)
              (some existing.id))
    by_identity (m ∷ n ∷ ms) = block duplicate_sync_identity (m ∷ n ∷ ms)

    unfoldable pub preflight_vm : Result (ApplyError E) Context
    unfolding create_context match_context name_matches
    preflight_vm =
        passed_on py
          (find_vm_sync_identity_matches print (λ (m : Machine). m.custom_fields) all_machines vm)
        >>= by_identity

  unfoldable pub preflight_all :
      {E : Type 0}
      → (all_machines target_machines : List Machine) → ℕ
      → List VirtualMachine
      → Result (ApplyError E) (List Context)
  unfolding preflight_vm
  preflight_all all_machines target_machines cluster [] = ok []
  preflight_all all_machines target_machines cluster (vm ∷ vms) = do
    context ← preflight_vm all_machines target_machines vm cluster
    rest ← preflight_all all_machines target_machines cluster vms
    ok (context ∷ rest)

  abbrev pub is_blocked : Context → Bool
  is_blocked c = elim c.action [ blocked reason candidates ↦ true | _ ↦ false ]
