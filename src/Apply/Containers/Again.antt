-- ===== src/Apply/Containers/Again.antt =====
-- What was written is not written again.
use mathlib.Core.Path.{subst}
use infra_sync.Prelude.{
  ℕ, String, ◌≡◌, refl, sym, ap, ◌∙◌, Bool, true, false, some, List, [], ◌∷◌, arith, ok, >>=-eq-ok,
  Result-cases, ok_eq, any, inl, inr,
}
use infra_sync.Json.{Json, Fields, get, or_null}
use infra_sync.Discovery.{Container}
use infra_sync.Metadata.Containers.{build_lxc_custom_fields, managed_lxc_custom_fields}
use infra_sync.Metadata.Again.{build_lxc_custom_fields_idem}
use infra_sync.Apply.Changes.{item}
use infra_sync.Apply.Patched.{
  stored_fields, Patched, custom_change, Plain, diff-Patched, custom_fields-Patched,
}
use infra_sync.Apply.NetBox.{Machine, Python}
use infra_sync.Apply.Containers.{
  LxcContext, Desired, cluster_value, lxc_checks, lxc_changes, lxc_differs, lxc_status,
  desired_fields, read, known_context,
}

lxc_checks-Plain : (d : Desired) → Plain (lxc_checks d)
unfolding lxc_checks cluster_value
lxc_checks-Plain d = record {
  distinct = refl;
  apart = (refl, (refl, (refl, (refl, (refl, (refl, (refl, tt)))))));
  absent = refl;
  reads = (refl, (refl, (refl, (refl, (refl, (refl, (refl, tt)))))));
}

module _ (py : Python) (same_refl : (v : Json) → py.same v v ≡ true) where
  any_none : (fields : Fields) (ks : List String) → any (lxc_differs py fields fields) ks ≡ false
  any_none fields [] = refl
  any_none fields (k ∷ ks) = ground (arith, same_refl (or_null (get k fields)), any_none fields ks)

  -- Where none differed they stay, and where one did they are the desired ones.
  none_differs :
      (current : Fields) (d : Desired) (differs : Bool)
      → any (lxc_differs py current d.custom_fields) managed_lxc_custom_fields ≡ differs
      → any
          (lxc_differs py
            (stored_fields (item "custom_fields" (custom_change differs d.custom_fields)) current)
            d.custom_fields)
          managed_lxc_custom_fields
        ≡ false
  unfolding item
  none_differs current d false e = e
  none_differs current d true e = any_none d.custom_fields managed_lxc_custom_fields

  module _ {E : Type 0} (container : Container) (cluster : ℕ) where
    -- What was built is built again from itself, beside the other desired fields.
    desired_fields_again :
        (current : Fields) (d : Desired)
        → desired_fields py {E = E} container cluster current ≡ ok d
        → desired_fields py {E = E} container cluster d.custom_fields ≡ ok d
    unfolding desired_fields
    desired_fields_again current d h =
        let (built, reading, more) =
          >>=-eq-ok (read py (build_lxc_custom_fields py.print py.sort_key container current)) _
            h in
        let (status, state, done) = >>=-eq-ok (lxc_status py container.status) _ more in
        elim (Result-cases (build_lxc_custom_fields py.print py.sort_key container current)) [
          | inl (built', e) ↦
              let found : built' ≡ built = ok_eq (rw e at reading) in
              let again =
                build_lxc_custom_fields_idem py.print py.sort_key container current built
                  (e ∙ ap ok found) in
              subst
                (λ (d : Desired).
                  desired_fields py {E = E} container cluster d.custom_fields ≡ ok d)
                (ok_eq done) (rw (again, state))
          | inr (error, e) ↦ absurd (cc (rw e at reading))
        ]

    -- The same desired fields, from the custom fields that the write left.
    desired_fields-stored :
        (differs : Bool) (current : Fields) (d : Desired)
        → desired_fields py {E = E} container cluster current ≡ ok d
        → desired_fields py {E = E} container cluster
            (stored_fields (item "custom_fields" (custom_change differs d.custom_fields)) current)
          ≡ ok d
    unfolding item
    desired_fields-stored false current d h = h
    desired_fields-stored true current d h = desired_fields_again current d h

    -- Where a container has an object and the changes that are found are stored as a PATCH stores
    -- them, the next run finds the same desired fields and no change, if a value is equal to
    -- itself.
    pub known_context-again :
        (all_machines : List Machine) (before after : Machine) (c : LxcContext)
        → known_context py {E = E} all_machines cluster container before ≡ ok c
        → Patched before c.changes after
        → known_context py {E = E} all_machines cluster container after
          ≡ ok (record {
            container = container;
            existing = some after;
            desired = c.desired;
            changes = [];
          })
    unfolding known_context lxc_changes
    known_context-again all_machines before after c h patched =
        let (d, wanted, done) =
          >>=-eq-ok (desired_fields py container cluster before.custom_fields) _ h in
        let same_desired : d ≡ c.desired = ap (λ (c : LxcContext). c.desired) (ok_eq done) in
        let differs =
          any (lxc_differs py before.custom_fields d.custom_fields) managed_lxc_custom_fields in
        let patched' =
          subst (λ (c : LxcContext). Patched before c.changes after) (sym (ok_eq done)) patched in
        let plain = lxc_checks-Plain d in
        let fields =
          custom_fields-Patched py.same same_refl (lxc_checks d) plain before after differs
            d.custom_fields patched' in
        let wanted' =
          subst (λ fs. desired_fields py {E = E} container cluster fs ≡ ok d) fields
            (desired_fields-stored differs before.custom_fields d wanted) in
        let settled =
          subst (λ fs. any (lxc_differs py fs d.custom_fields) managed_lxc_custom_fields ≡ false)
            fields (none_differs before.custom_fields d differs refl) in
        subst
          (λ (d' : Desired).
            known_context py {E = E} all_machines cluster container after
            ≡ ok (record {
              container = container;
              existing = some after;
              desired = d';
              changes = [];
            }))
          same_desired
          (rw (
            wanted',
            settled,
            diff-Patched py.same same_refl (lxc_checks d) plain before after differs d.custom_fields
                patched',
          ))
