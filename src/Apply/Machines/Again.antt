-- ===== src/Apply/Machines/Again.antt =====
-- What was written is not written again.
use mathlib.Core.Path.{subst}
use infra_sync.Prelude.{
  ℕ, String, ◌≡◌, refl, sym, ◌∙◌, true, List, [], ◌∷◌, ◌++◌, arith, Result, ok, >>=-eq-ok,
  Result-cases, ok_eq, keep, inl, inr,
}
use infra_sync.Json.{Json, Fields, get, or_null}
use infra_sync.Discovery.{VirtualMachine}
use infra_sync.Metadata.Machines.{build_vm_custom_fields, managed_vm_custom_fields}
use infra_sync.Metadata.Again.{build_vm_custom_fields_idem}
use infra_sync.Apply.Changes.{diff, item}
use infra_sync.Apply.Patched.{
  stored_fields, Patched, custom_change, Plain, diff-Patched, custom_fields-Patched,
}
use infra_sync.Apply.NetBox.{Machine, Python}
use infra_sync.Apply.Machines.{
  ApplyError, Context, matched, object_id, choice_value, integer_value, desired_status, checks,
  is_some_name, vm_changes, managed_metadata, differs,
}
use infra_sync.Apply.Machines.Preflight.{match_context}

sent_changes :
    {E : Type 0} (before : Machine) (vm : VirtualMachine) {a b : List (String × Json)}
    → ◌≡◌ {A = Result (ApplyError E) Context}
        (ok (record { vm = vm; action = matched before a }))
        (ok (record { vm = vm; action = matched before b }))
    → a ≡ b
sent_changes before vm h = cc h

module _ (py : Python) (same_refl : (v : Json) → py.same v v ≡ true) where
  keep_none : (fields : Fields) (ks : List String) → keep (differs py fields fields) ks ≡ []
  keep_none fields [] = refl
  keep_none fields (k ∷ ks) =
      ground (arith, same_refl (or_null (get k fields)), keep_none fields ks)

  checks-Plain :
      (vm : VirtualMachine) (cluster : ℕ) (status : String) → Plain (checks py vm cluster status)
  unfolding checks object_id choice_value integer_value
  checks-Plain vm cluster status = record {
    distinct = refl;
    apart = (refl, (refl, (refl, (refl, (refl, (refl, (refl, tt)))))));
    absent = refl;
    reads = (refl, (refl, (refl, (refl, (refl, (refl, (refl, tt)))))));
  }

  managed_metadata_lem :
      {E : Type 0} (vm : VirtualMachine) (existing : Fields) (found : Fields × List String)
      → managed_metadata py {E = E} vm existing ≡ ok found
      → (build_vm_custom_fields py.print py.sort_key vm existing ≡ ok found.0)
        × (found.1 ≡ keep (differs py existing found.0) managed_vm_custom_fields)
  unfolding managed_metadata
  managed_metadata_lem vm existing found h =
      elim (Result-cases (build_vm_custom_fields py.print py.sort_key vm existing)) [
        | inl (built, e) ↦ let h' = rw e at h in (e ∙ ground arith, ground arith)
        | inr (error, e) ↦ absurd (cc (rw e at h))
      ]

  managed_metadata-settled :
      {E : Type 0} (vm : VirtualMachine) (fields : Fields)
      → build_vm_custom_fields py.print py.sort_key vm fields ≡ ok fields
      → managed_metadata py {E = E} vm fields ≡ ok (fields, [])
  unfolding managed_metadata
  managed_metadata-settled vm fields h = rw (h, keep_none fields managed_vm_custom_fields)

  -- Where the built fields are stored, or the stored ones did not differ, a second run finds that
  -- none differs.
  managed_metadata_again :
      {E : Type 0} (vm : VirtualMachine) (existing : Fields) (found : Fields × List String)
      → managed_metadata py {E = E} vm existing ≡ ok found
      → (again : Fields) × (managed_metadata py {E = E} vm (
            stored_fields
              (item "custom_fields" (custom_change (is_some_name py found.1) found.0))
              existing)
          ≡ ok (again, []))
  unfolding item
  managed_metadata_again vm existing (desired, []) h = (desired, h)
  managed_metadata_again vm existing (desired, k ∷ ks) h = (
    desired,
    managed_metadata-settled vm desired (
        build_vm_custom_fields_idem py.print py.sort_key vm existing desired
          (managed_metadata_lem vm existing (desired, k ∷ ks) h).0),
  )

  module _ {E : Type 0} (all_machines target_machines : List Machine) (vm : VirtualMachine)
      (cluster : ℕ) where
    -- Where the preflight matches an object and the changes that it finds are stored as a PATCH
    -- stores them, the next preflight of the object finds no change, if a value is equal to itself:
    -- one run brings a virtual machine to what is wanted, and a second one leaves it.
    pub match_context-again :
        (before after : Machine) (changes : List (String × Json))
        → match_context py {E = E} all_machines target_machines vm cluster before
          ≡ ok (record { vm = vm; action = matched before changes })
        → Patched before changes after
        → match_context py {E = E} all_machines target_machines vm cluster after
          ≡ ok (record { vm = vm; action = matched after [] })
    unfolding match_context vm_changes
    match_context-again before after changes h patched =
        let (found, metadata, more) = >>=-eq-ok (managed_metadata py vm before.custom_fields) _ h in
        let (sent, changed, done) =
          >>=-eq-ok (vm_changes py before vm cluster found.0 found.1) _ more in
        let (status, read, diffed) = >>=-eq-ok (desired_status py vm) _ changed in
        let all_sent : changes
            ≡ diff py.same (checks py vm cluster status) before.serialized
              ++ custom_change (is_some_name py found.1) found.0 =
          sent_changes before vm (sym done) ∙ ok_eq (sym diffed) in
        let patched' = subst (λ items. Patched before items after) all_sent patched in
        let plain = checks-Plain vm cluster status in
        let (again, metadata') = managed_metadata_again vm before.custom_fields found metadata in
        let fields =
          custom_fields-Patched py.same same_refl (checks py vm cluster status) plain before after
            (is_some_name py found.1) found.0 patched' in
        let metadata'' =
          subst (λ fs. managed_metadata py {E = E} vm fs ≡ ok (again, [])) fields metadata' in
        rw (
          metadata'',
          read,
          diff-Patched py.same same_refl (checks py vm cluster status) plain before after
              (is_some_name py found.1) found.0 patched',
        )
