-- ===== src/Plan/Machines.antt =====
-- netbox_sync/netbox_vm_planner.py: the plan of the virtual machines of a host. What is printed is
-- left out, the exceptions that printing raises are not.
pub mod Laws
use infra_sync.Prelude.{
  ℕ, ◌+◌, String, Bool, true, false, ◌&&◌, Option, none, some, List, [], ◌∷◌, ◌==◌, if◌then◌else◌,
  Result, ok, err, ◌>>=◌, keep,
}
use infra_sync.Json.{Json, Fields, end}
use infra_sync.Discovery.{VirtualMachine, Host}
use infra_sync.Identity.Record.{IdentityError}
use infra_sync.Metadata.Machines.{find_vm_sync_identity_matches, build_vm_custom_fields}
use infra_sync.Apply.NetBox.{Machine, Python}
use infra_sync.Plan.{Counters, no_counts, has_no_tenant}

-- `unsupported_status` is the `RuntimeError` of `_netbox_vm_status`, `unreadable` a `ValueError`.
pub data PlanError : Type 0 where
  unsupported_status : PlanError
  unreadable : IdentityError → PlanError

-- The reason of `_find_vm_match`, with the objects.
pub data Match : Type 0 where
  conflict_identity conflict_name : List Machine → Match
  sync_identity adopt_candidate : Machine → Match
  create : Match

abbrev pub read : {A : Type 0} → Result IdentityError A → Result PlanError A
read (ok a) = ok a
read (err e) = err (unreadable e)

-- `_netbox_vm_status`
unfoldable pub netbox_vm_status : String → Result PlanError String
netbox_vm_status status =
    if status == "running"
    then ok "active"
    else if status == "stopped"
    then ok "offline"
    else if status == "paused"
    then ok "paused"
    else err unsupported_status

abbrev pub by_name : List Machine → Match
by_name [] = create
by_name (m ∷ []) = adopt_candidate m
by_name (m ∷ n ∷ ms) = conflict_name (m ∷ n ∷ ms)

abbrev pub counted_as : Match → Counters → Counters
counted_as (conflict_identity ms) c = record c { conflict = c.conflict + 1 }
counted_as (conflict_name ms) c = record c { conflict = c.conflict + 1 }
counted_as (sync_identity m) c = record c { matched = c.matched + 1 }
counted_as (adopt_candidate m) c = record c { adopt_candidate = c.adopt_candidate + 1 }
counted_as create c = record c { created = c.created + 1 }

module _ (py : Python) where
  open py use {print, sort_key, casefold}

  -- An object of the name without a tenant.
  unfoldable pub candidates : List Machine → VirtualMachine → List Machine
  unfolding has_no_tenant
  candidates existing vm =
      keep (λ (m : Machine). casefold m.name == casefold vm.original_name && has_no_tenant m)
        existing

  abbrev pub by_identity : List Machine → VirtualMachine → List Machine → Match
  unfolding candidates
  by_identity existing vm [] = by_name (candidates existing vm)
  by_identity existing vm (m ∷ []) = sync_identity m
  by_identity existing vm (m ∷ n ∷ ms) = conflict_identity (m ∷ n ∷ ms)

  unfoldable pub find_vm_match : List Machine → VirtualMachine → Result PlanError Match
  unfolding candidates
  find_vm_match existing vm = do
    matches ←
        read (find_vm_sync_identity_matches print (λ (m : Machine). m.custom_fields) existing vm)
    ok (by_identity existing vm matches)

  -- What `_print_desired_vm` can raise.
  unfoldable pub print_desired : VirtualMachine → Fields → Result PlanError (Unit {0})
  unfolding netbox_vm_status
  print_desired vm existing = do
    status ← netbox_vm_status vm.status
    desired ← read (build_vm_custom_fields print sort_key vm existing)
    ok tt

  abbrev pub printed : VirtualMachine → Match → Result PlanError (Unit {0})
  unfolding print_desired
  printed vm (conflict_identity ms) = ok tt
  printed vm (conflict_name ms) = ok tt
  printed vm (sync_identity m) = print_desired vm m.custom_fields
  printed vm (adopt_candidate m) = print_desired vm m.custom_fields
  printed vm create = print_desired vm end

  unfoldable pub plan_each :
      List Machine → Counters → List VirtualMachine → Result PlanError Counters
  unfolding find_vm_match print_desired
  plan_each existing c [] = ok c
  plan_each existing c (vm ∷ vms) = do
    found ← find_vm_match existing vm
    shown ← printed vm found
    plan_each existing (counted_as found c) vms

  -- `plan_virtual_machines`: `existing` is what stands in the cluster, `none` where there is no
  -- cluster yet; `sort_by_vmid` is `sorted` by the number.
  unfoldable pub plan_virtual_machines :
      (List VirtualMachine → List VirtualMachine)
      → Host
      → Option (List Machine)
      → Result PlanError (Option Counters)
  unfolding plan_each
  plan_virtual_machines sort_by_vmid host none = ok none
  plan_virtual_machines sort_by_vmid host (some existing) = do
    c ← plan_each existing no_counts (sort_by_vmid host.virtual_machines)
    ok (some c)
