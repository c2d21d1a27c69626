-- ===== src/Plan/Machines/Laws.antt =====
-- The counts of a plan of virtual machines, and what `apply_virtual_machines` makes of it.
use infra_sync.Prelude.{
  ℕ, ◌+◌, ◌≡◌, ◌⊎◌, refl, sym, ap, ◌∙◌, none, some, List, [], ◌∷◌, arith, ok, >>=-eq-ok,
  Result-cases, Bool-cases, inl, inr, ok_eq, length, All,
}
use mathlib.Core.Path.{subst}
use infra_sync.Json.{null, Fields, end}
use infra_sync.Discovery.{VirtualMachine, Host}
use infra_sync.Metadata.Machines.{find_vm_sync_identity_matches}
use infra_sync.Apply.NetBox.{Machine, Python}
use infra_sync.Apply.Machines.{
  ApplyError, Context, Action, blocked, matched, Reason, duplicate_sync_identity,
  identity_outside_target_cluster, desired_name_conflict, duplicate_name_candidate, tenant_id,
  name_matches, managed_metadata, vm_changes,
}
use infra_sync.Apply.Machines as Apply
use infra_sync.Apply.Machines.Preflight as Preflight
use infra_sync.Apply.Machines.Preflight.{
  in_cluster, create_context, match_context, unless_conflict, preflight_vm,
}
use infra_sync.Plan.{Counters, no_counts, counted, has_no_tenant}
use infra_sync.Plan.Machines.{
  Match, conflict_identity, conflict_name, sync_identity, adopt_candidate, create, by_name,
  by_identity, counted_as, candidates, find_vm_match, printed, plan_each, plan_virtual_machines,
}

counted-counted_as : (found : Match) (c : Counters) → counted (counted_as found c) ≡ counted c + 1
counted-counted_as (conflict_identity ms) c = omega arith
counted-counted_as (conflict_name ms) c = omega arith
counted-counted_as (sync_identity m) c = omega arith
counted-counted_as (adopt_candidate m) c = omega arith
counted-counted_as create c = omega arith

-- What the apply does about a match of the plan.
abbrev pub Agrees : Match → Action → Type 0
Agrees (conflict_identity ms) a = a ≡ blocked duplicate_sync_identity ms
Agrees (conflict_name ms) a = a ≡ blocked duplicate_name_candidate ms
Agrees (adopt_candidate m) a = a ≡ blocked Apply.adopt_candidate (m ∷ [])
Agrees create a = (desired : Fields) × (a ≡ Apply.create desired)
Agrees (sync_identity m) (Apply.create desired) = ⊥
Agrees (sync_identity m) (matched existing changes) = existing ≡ m
Agrees (sync_identity m) (blocked reason ms) =
    (reason ≡ identity_outside_target_cluster) ⊎ (reason ≡ desired_name_conflict)

module _ (py : Python) where
  counted-plan_each :
      (existing : List Machine) (c d : Counters) (vms : List VirtualMachine)
      → plan_each py existing c vms ≡ ok d
      → counted d ≡ counted c + length vms
  unfolding plan_each
  counted-plan_each existing c d [] h = ap counted (sym (ok_eq h)) ∙ omega arith
  counted-plan_each existing c d (vm ∷ vms) h =
      let (found, _, h1) = >>=-eq-ok (find_vm_match py existing vm) _ h in
      let (shown, _, rest) = >>=-eq-ok (printed py vm found) _ h1 in
      omega (
        arith,
        counted-plan_each existing (counted_as found c) d vms rest,
        counted-counted_as found c,
      )

  -- Where sorting keeps the number of machines, a plan that is made counts every virtual machine of
  -- the host once.
  pub counted-plan_virtual_machines :
      (sort_by_vmid : List VirtualMachine → List VirtualMachine) (host : Host)
      (existing : List Machine) (c : Counters)
      → ((vms : List VirtualMachine) → length (sort_by_vmid vms) ≡ length vms)
      → plan_virtual_machines py sort_by_vmid host (some existing) ≡ ok (some c)
      → counted c ≡ length host.virtual_machines
  unfolding plan_virtual_machines
  counted-plan_virtual_machines sort_by_vmid host existing c sorts h =
      let (d, each, done) =
        >>=-eq-ok (plan_each py existing no_counts (sort_by_vmid host.virtual_machines)) _ h in
      let same : d ≡ c = ground (arith, ok_eq done) in
      omega (
        arith,
        ap counted same,
        counted-plan_each existing no_counts d _ each,
        sorts host.virtual_machines,
      )

  -- Both read the same tenants: an object has none just where its serialized form has no id of one.
  abbrev pub ReadsTenants : List Machine → Type 0
  ReadsTenants ms = All (λ (m : Machine). py.same (tenant_id py m) null ≡ has_no_tenant m) ms

  name_matches-candidates :
      (vm : VirtualMachine) (ms : List Machine)
      → ReadsTenants ms
      → name_matches py ms vm.original_name null none ≡ candidates py ms vm
  unfolding name_matches candidates
  name_matches-candidates vm [] tenants = refl
  name_matches-candidates vm (m ∷ ms) tenants =
      rw (tenants.0, name_matches-candidates vm ms tenants.1) refl

  module _ {E : Type 0} (existing : List Machine) (tenants : ReadsTenants existing)
      (vm : VirtualMachine) (cluster : ℕ) where
    by_name-Agrees :
        (ms : List Machine) (c : Context)
        → Preflight.by_name py {E = E} existing existing vm cluster ms ≡ ok c
        → Agrees (by_name ms) c.action
    unfolding create_context
    by_name-Agrees [] c h =
        let (metadata, _, done) = >>=-eq-ok (managed_metadata py {E = E} vm end) _ h in
        subst (λ (c : Context). Agrees create c.action) (ok_eq done) (metadata.0, refl)
    by_name-Agrees (m ∷ []) c h =
        subst (λ (c : Context). Agrees (adopt_candidate m) c.action) (ok_eq h) refl
    by_name-Agrees (m ∷ n ∷ ms) c h =
        subst (λ (c : Context). Agrees (conflict_name (m ∷ n ∷ ms)) c.action) (ok_eq h) refl

    unless_conflict-Agrees :
        (m : Machine) (ms : List Machine) (c : Context)
        → unless_conflict py {E = E} existing existing vm cluster m ms ≡ ok c
        → Agrees (sync_identity m) c.action
    unfolding match_context
    unless_conflict-Agrees m [] c h =
        let (metadata, _, more) = >>=-eq-ok (managed_metadata py {E = E} vm m.custom_fields) _ h in
        let (changes, _, done) =
          >>=-eq-ok (vm_changes py m vm cluster metadata.0 metadata.1) _ more in
        subst (λ (c : Context). Agrees (sync_identity m) c.action) (ok_eq done) refl
    unless_conflict-Agrees m (n ∷ ms) c h =
        subst (λ (c : Context). Agrees (sync_identity m) c.action) (ok_eq h) (inr refl)

    by_identity-Agrees :
        (ms : List Machine) (c : Context)
        → Preflight.by_identity py {E = E} existing existing vm cluster ms ≡ ok c
        → Agrees (by_identity py existing vm ms) c.action
    unfolding candidates
    by_identity-Agrees [] c h =
        by_name-Agrees (candidates py existing vm) c
          (rw (name_matches-candidates vm existing tenants) at h)
    by_identity-Agrees (m ∷ []) c h = elim (Bool-cases (in_cluster py cluster m)) [
      | inl inside ↦ unless_conflict-Agrees m _ c (rw inside at h)
      | inr outside ↦
          subst (λ (c : Context). Agrees (sync_identity m) c.action) (ok_eq (rw outside at h))
            (inl refl)
    ]
    by_identity-Agrees (m ∷ n ∷ ms) c h =
        subst (λ (c : Context). Agrees (conflict_identity (m ∷ n ∷ ms)) c.action) (ok_eq h) refl

    -- Where the plan and the apply see the same objects and read the same tenants, they agree on
    -- every virtual machine that both can read: what the plan calls a conflict or a candidate for
    -- adoption the apply blocks for the same reason with the same objects, what the plan would
    -- create the apply creates, and what the plan matches by identity the apply matches with the
    -- same object or blocks for its cluster or its name.
    pub find_vm_match-preflight_vm :
        (found : Match) (c : Context)
        → find_vm_match py existing vm ≡ ok found
        → preflight_vm py {E = E} existing existing vm cluster ≡ ok c
        → Agrees found c.action
    unfolding find_vm_match preflight_vm
    find_vm_match-preflight_vm found c planned h =
        elim (Result-cases
          (find_vm_sync_identity_matches py.print (λ (m : Machine). m.custom_fields) existing vm)) [
            | inl (ms, e) ↦
                subst (λ f. Agrees f c.action) (ok_eq (rw e at planned))
                  (by_identity-Agrees ms c (rw e at h))
            | inr (x, e) ↦ absurd (cc (rw e at h))
          ]
