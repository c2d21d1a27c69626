-- ===== src/Tests/Guests.antt =====
-- Runs of the plan and of the apply of virtual machines and containers.
use infra_sync.Prelude.{
  ℕ, suc, ◌+◌, String, ◌≡◌, ◌≢◌, refl, ap, Bool, true, false, ◌&&◌, Option, none, some, List, [],
  ◌∷◌, ◌++◌, arith, ◌==◌, ==_refl, eqb, Result, ok, err, length,
}
use infra_sync.Json.{
  Json, Items, Fields, null, bool, num, real, str, arr, obj, nil, cons, end, field, get, update,
}
use infra_sync.Discovery.{VirtualMachine, Container}
use infra_sync.Identity.Select.{select_best}
use infra_sync.Metadata.Machines.{build_vm_custom_fields, find_vm_sync_identity_matches}
use infra_sync.Metadata.Containers.{build_lxc_custom_fields, find_lxc_sync_identity_matches}
use infra_sync.Apply.Changes.{diff, item}
use infra_sync.Apply.NetBox.{Machine, Cluster, Python, Api}
use infra_sync.Apply.Patched.{Patched, stored_fields, custom_change}
use infra_sync.Apply.Machines.{
  ApplyError, Context, Action, blocked, adopt_candidate, matched, checks, create, no_writes,
}
use infra_sync.Apply.Machines.Preflight.{match_context, preflight_vm}
use infra_sync.Apply.Machines.Writes.{apply_virtual_machines}
use infra_sync.Apply.Machines.Again.{match_context-again}
use infra_sync.Apply.Machines.Laws as Machines
use infra_sync.Apply.Machines.Laws.{apply_virtual_machines-Guarded}
use infra_sync.Apply.Machines.Ends as MachineEnds
use infra_sync.Apply.Machines.Ends.{apply_virtual_machines-IsEnded}
use infra_sync.Apply.Containers.{LxcContext, Desired, known_context, lxc_changes}
use infra_sync.Apply.Containers.Writes.{apply_lxc_containers}
use infra_sync.Apply.Containers.Again.{known_context-again}
use infra_sync.Apply.Containers.Laws as Containers
use infra_sync.Apply.Containers.Laws.{apply_lxc_containers-Guarded, apply_lxc_containers-IsEnded}
use infra_sync.Plan.{has_no_tenant}
use infra_sync.Plan.Machines.{Match, plan_virtual_machines, find_vm_match}
use infra_sync.Plan.Machines as Plan
use infra_sync.Plan.Machines.Laws.{Agrees, find_vm_match-preflight_vm}
use infra_sync.Tests.{print, sort_key, vm, container, host}
use infra_sync.Tests.CustomFields.{value_of, existing}
use infra_sync.Tests.Runs.{first_source}

abbrev mutual
  pub same_json : Json → Json → Bool
  same_json null null = true
  same_json (bool true) (bool b) = b
  same_json (bool false) (bool true) = false
  same_json (bool false) (bool false) = true
  same_json (num n) (num m) = eqb n m
  same_json (real a) (real b) = a == b
  same_json (str a) (str b) = a == b
  same_json (arr xs) (arr ys) = same_items xs ys
  same_json (obj fs) (obj gs) = same_fields fs gs
  same_json _ _ = false

  pub same_items : Items → Items → Bool
  same_items nil nil = true
  same_items (cons x xs) (cons y ys) = same_json x y && same_items xs ys
  same_items _ _ = false

  pub same_fields : Fields → Fields → Bool
  same_fields end end = true
  same_fields (field k v fs) (field j u gs) = k == j && same_json v u && same_fields fs gs
  same_fields _ _ = false

mutual
  same_json_refl : (v : Json) → same_json v v ≡ true
  same_json_refl null = refl
  same_json_refl (bool true) = refl
  same_json_refl (bool false) = refl
  same_json_refl (num n) = ground arith
  same_json_refl (real a) = ==_refl a
  same_json_refl (str a) = ==_refl a
  same_json_refl (arr xs) = same_items_refl xs
  same_json_refl (obj fs) = same_fields_refl fs

  same_items_refl : (xs : Items) → same_items xs xs ≡ true
  same_items_refl nil = refl
  same_items_refl (cons x xs) = ground (arith, same_json_refl x, same_items_refl xs)

  same_fields_refl : (fs : Fields) → same_fields fs fs ≡ true
  same_fields_refl end = refl
  same_fields_refl (field k v fs) = ground (arith, ==_refl k, same_json_refl v, same_fields_refl fs)

abbrev pub py : Python
py = record {
  print = print;
  sort_key = sort_key;
  same = same_json;
  casefold = λ s. s;
  int_of = λ v. v;
  sort_machines = λ vms. vms;
}

-- An object that was renamed in the source, as it stands before the write and after it.
abbrev before : Machine
before = record {
  id = 7;
  name = "Old";
  cluster = some 3;
  serialized =
      field "name" (str "Old")
        (field "cluster" (obj (field "id" (num 3) end)) (field "status" (str "active") end));
  custom_fields = existing;
}

abbrev vm_sent : List (String × Json)
vm_sent =
    diff same_json (checks py vm 3 "active") before.serialized
    ++ custom_change true (value_of (build_vm_custom_fields print sort_key vm existing))

abbrev patched : List (String × Json) → Machine
patched items = record before {
  serialized = update items before.serialized;
  custom_fields = stored_fields (item "custom_fields" items) before.custom_fields;
}

patched-Patched : (items : List (String × Json)) → Patched before items (patched items)
patched-Patched items = record { serialized = λ key. refl; custom_fields = refl }

match_context-again_example :
    match_context py {E = String} [] [] vm 3 (patched vm_sent)
    ≡ ok (record { vm = vm; action = matched (patched vm_sent) [] })
unfolding match_context build_vm_custom_fields
    infra_sync.Identity.Builders.virtual_machine_source_identity
    infra_sync.Identity.Builders.identity infra_sync.Identity.Record.make_identity
    infra_sync.Prelude.is_blank infra_sync.Identity.Merge.merge_source_identities get
    infra_sync.Metadata.Machines.normalized infra_sync.Json.put
    infra_sync.Identity.Merge.foreign_records infra_sync.Identity.Record.from_record
    infra_sync.Identity.Merge.merge_original_name update infra_sync.Prelude.Sorting.sort_by
    infra_sync.Identity.Merge.same_namespace infra_sync.Identity.Record.to_record diff checks
    infra_sync.Apply.Machines.choice_value infra_sync.Apply.Machines.desired_disk
    infra_sync.Apply.Machines.desired_memory infra_sync.Apply.Machines.desired_start_on_boot
    infra_sync.Apply.Machines.desired_status infra_sync.Apply.Machines.integer_value
    infra_sync.Apply.Machines.managed_metadata infra_sync.Apply.Machines.object_id
    infra_sync.Apply.Machines.vm_changes
match_context-again_example =
    match_context-again py same_json_refl {E = String} [] [] vm 3 before (patched vm_sent) vm_sent
      refl (patched-Patched vm_sent)

abbrev lxc_desired : Desired
lxc_desired = record {
  name = "Cache";
  cluster = 3;
  status = "active";
  vcpus = 1;
  memory = 0;
  disk = 0;
  start_on_boot = "off";
  custom_fields = value_of (build_lxc_custom_fields print sort_key container existing);
}

abbrev lxc_before : LxcContext
lxc_before = record {
  container = container;
  existing = some before;
  desired = lxc_desired;
  changes = lxc_changes py before lxc_desired;
}

known_context-again_example :
    known_context py {E = String} [] 3 container (patched lxc_before.changes)
    ≡ ok (record {
      container = container;
      existing = some (patched lxc_before.changes);
      desired = lxc_desired;
      changes = [];
    })
unfolding known_context build_lxc_custom_fields infra_sync.Identity.Builders.lxc_source_identity
    infra_sync.Identity.Builders.identity infra_sync.Identity.Record.make_identity
    infra_sync.Prelude.is_blank infra_sync.Identity.Merge.merge_source_identities get
    infra_sync.Identity.Merge.foreign_records infra_sync.Identity.Record.from_record
    infra_sync.Identity.Merge.merge_original_name
known_context-again_example =
    known_context-again py same_json_refl {E = String} container 3 [] before
      (patched lxc_before.changes) lxc_before refl (patched-Patched lxc_before.changes)

abbrev main_cluster : Cluster
main_cluster = record {
  id = 3;
  serialized =
      field "type" (num 2) (field "scope_type" (str "dcim.site") (field "scope_id" (num 1) end));
}

-- A NetBox without guests; the world counts the updates.
abbrev pub api : Api ℕ String
api = record {
  site = λ slug w. some 1;
  cluster_type = λ slug w. some 2;
  clusters = λ name w. main_cluster ∷ [];
  all_machines = λ w. [];
  machines_in = λ cluster w. [];
  create = λ items w. (ok tt, w);
  update = λ id items w. (ok tt, suc w);
}

abbrev pub NoUpdate : ℕ → Type 0
NoUpdate w = w ≡ 0

no_vm_match :
    (vm : VirtualMachine) (m : Machine)
    → find_vm_sync_identity_matches print (λ (m : Machine). m.custom_fields) [] vm ≢ ok (m ∷ [])
unfolding find_vm_sync_identity_matches select_best
no_vm_match vm m h = absurd (cc h)

no_lxc_match :
    (c : Container) (m : Machine)
    → find_lxc_sync_identity_matches print (λ (m : Machine). m.custom_fields) [] c ≢ ok (m ∷ [])
unfolding find_lxc_sync_identity_matches select_best
no_lxc_match c m h = absurd (cc h)

pub vm-Guarded :
    (start : ℕ)
    → Machines.Guarded py {E = String} api (host ∷ []) first_source.target NoUpdate start
vm-Guarded start = record {
  creates = λ cluster vm desired items w j e p. p;
  updates = λ cluster vm m changes w j p. absurd (no_vm_match vm m j.0);
}

pub lxc-Guarded : (start : ℕ) → Containers.Guarded py {E = String} api NoUpdate start
lxc-Guarded start = record {
  creates = λ cluster c w j p. p;
  updates = λ cluster c m w j p. absurd (no_lxc_match c.container m j.0);
}

apply_virtual_machines-Guarded_example :
    (apply_virtual_machines py api (host ∷ []) first_source.target true 0).1 ≡ 0
apply_virtual_machines-Guarded_example =
    apply_virtual_machines-Guarded py api (host ∷ []) first_source.target NoUpdate true 0
      (vm-Guarded 0) refl

apply_lxc_containers-Guarded_example :
    (apply_lxc_containers py api (host ∷ []) first_source.target true 0).1 ≡ 0
apply_lxc_containers-Guarded_example =
    apply_lxc_containers-Guarded py api (host ∷ []) first_source.target NoUpdate true 0
      (lxc-Guarded 0) refl

apply_virtual_machines-IsEnded_example :
    MachineEnds.IsEnded py {E = String} api
      (host ∷ [])
      first_source.target
      0
      (apply_virtual_machines py api (host ∷ []) first_source.target true 0)
apply_virtual_machines-IsEnded_example =
    apply_virtual_machines-IsEnded py api (host ∷ []) first_source.target (λ vms. refl) true 0

apply_lxc_containers-IsEnded_example :
    Containers.IsEnded py {E = String} api
      (host ∷ [])
      first_source.target
      0
      (apply_lxc_containers py api (host ∷ []) first_source.target true 0)
apply_lxc_containers-IsEnded_example =
    apply_lxc_containers-IsEnded py api (host ∷ []) first_source.target true 0

-- An object of the machine's name, with no identity and no tenant.
abbrev namesake : Machine
namesake = record before { name = "Web"; custom_fields = end }

abbrev adopted : Action
adopted = blocked adopt_candidate (namesake ∷ [])

find_vm_match-preflight_vm_example : Agrees (Plan.adopt_candidate namesake) adopted
unfolding has_no_tenant infra_sync.Apply.Machines.tenant_id get find_vm_match
    infra_sync.Metadata.Machines.find_vm_sync_identity_matches
    infra_sync.Identity.Select.select_best
    infra_sync.Identity.Builders.virtual_machine_source_identity
    infra_sync.Identity.Builders.identity infra_sync.Identity.Record.make_identity
    infra_sync.Prelude.is_blank infra_sync.Identity.Rank.match_rank
    infra_sync.Identity.Rank.identities_of preflight_vm
find_vm_match-preflight_vm_example =
    find_vm_match-preflight_vm py {E = String} (namesake ∷ []) (refl, tt) vm 3
      (Plan.adopt_candidate namesake) (record { vm = vm; action = adopted }) refl refl
