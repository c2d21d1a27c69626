-- ===== src/Apply/Machines.antt =====
-- netbox_sync/netbox_vm_apply.py: virtual machines. All objects are checked before the first one
-- is written; what is printed is left out.
pub mod Preflight
pub mod Writes
pub mod Again
pub mod Justified
pub mod Laws
pub mod Ends
use Prim.Native.String.{◌++◌ as text_append}
use infra_sync.Prelude.{
  ℕ, ◌+◌, ◌/◌, ◌*◌, ◌^◌, String, Bool, true, false, not, ◌&&◌, ◌||◌, Option, none, some, List, [],
  ◌∷◌, ◌++◌, map, ◌==◌, eqb, if◌then◌else◌, mem_text, Result, ok, err, ◌>>=◌, ◌>>◌, require, keep,
  any,
}
use infra_sync.Json.{Json, null, bool, num, str, obj, Fields, end, get, or_null}
use infra_sync.Discovery.{VirtualMachine, VirtualDisk, Host}
use infra_sync.Config.{NetBoxTargetConfig}
use infra_sync.Identity.Record.{IdentityError}
use infra_sync.Metadata.Machines.{
  find_vm_sync_identity_matches, build_vm_custom_fields, managed_vm_custom_fields,
  vm_identity_source_id,
}
use infra_sync.Apply.Changes.{Check, diff}
use infra_sync.Apply.Patched.{custom_change}
use infra_sync.Apply.NetBox.{Machine, Cluster, Python, Api}

-- The `VMApplyError`s; an identity that cannot be read is a `ValueError` that passes through, as
-- does what NetBox raises.
pub data ApplyError (E : Type 0) : Type 0 where
  missing_site missing_cluster_type ambiguous_cluster unsupported_status : ApplyError E
  duplicate_identities duplicate_names precheck_failed : ApplyError E
  invalid_metadata unreadable : IdentityError → ApplyError E
  raised : E → ApplyError E

pub data Reason : Type 0 where
  duplicate_sync_identity identity_outside_target_cluster desired_name_conflict : Reason
  duplicate_name_candidate adopt_candidate : Reason

-- The context of one discovered machine: its action, with what the action needs.
pub data Action : Type 0 where
  blocked : Reason → List Machine → Action
  create : (desired_custom_fields : Fields) → Action
  matched : Machine → (changes : List (String × Json)) → Action

pub record Context : Type 0 where
  pub vm : VirtualMachine
  pub action : Action

pub record Summary : Type 0 where
  pub created : ℕ
  pub updated : ℕ
  pub skipped : ℕ

abbrev pub no_writes : Summary
no_writes = record { created = 0; updated = 0; skipped = 0 }

-- `_object_id`, `_choice_value` and `_integer_value`, of serialized values
unfoldable pub object_id : Json → Json
object_id (obj fs) = or_null (get "id" fs)
object_id (num n) = num n
object_id (bool b) = bool b
object_id _ = null

unfoldable pub choice_value : Json → Json
choice_value (obj fs) = or_null (get "value" fs)
choice_value v = v

abbrev pub sum_sizes : List VirtualDisk → ℕ
sum_sizes [] = 0
sum_sizes (d ∷ ds) = d.size_bytes + sum_sizes ds

module _ (py : Python) where
  open py use {print, sort_key, same, casefold, int_of, sort_machines}

  unfoldable pub integer_value : Json → Json
  integer_value null = null
  integer_value (num n) = num n
  integer_value v = int_of v

  module _ {E : Type 0} where
    unfoldable pub desired_status : VirtualMachine → Result (ApplyError E) String
    desired_status vm =
        if vm.status == "running"
        then ok "active"
        else if vm.status == "stopped"
        then ok "offline"
        else if vm.status == "paused"
        then ok "paused"
        else err unsupported_status

  unfoldable pub desired_memory : VirtualMachine → ℕ
  desired_memory vm = vm.memory_bytes / 1024 ^ 2

  unfoldable pub desired_disk : VirtualMachine → ℕ
  desired_disk vm = sum_sizes vm.disks / 1024 ^ 2

  unfoldable pub desired_start_on_boot : VirtualMachine → String
  desired_start_on_boot vm = if vm.autostart then "on" else "off"

  unfoldable pub machine_identity : VirtualMachine → String
  machine_identity vm = text_append vm.source (text_append ":" (vm_identity_source_id vm))

  unfoldable pub tenant_id : Machine → Json
  unfolding object_id
  tenant_id m = object_id (or_null (get "tenant" m.serialized))

  abbrev is_other : Option ℕ → Machine → Bool
  is_other none m = true
  is_other (some excluded) m = not (eqb m.id excluded)

  unfoldable pub name_matches : List Machine → String → Json → Option ℕ → List Machine
  unfolding tenant_id
  name_matches existing name tenant excluded =
      keep
        (λ (m : Machine).
          is_other excluded m && casefold m.name == casefold name && same (tenant_id m) tenant)
        existing

  abbrev pub relabelled : {E : Type 0} → Result IdentityError Fields → Result (ApplyError E) Fields
  relabelled (ok fields) = ok fields
  relabelled (err e) = err (invalid_metadata e)

  abbrev pub passed_on : {E A : Type 0} → Result IdentityError A → Result (ApplyError E) A
  passed_on (ok a) = ok a
  passed_on (err e) = err (unreadable e)

  -- `existing.get(field_name) != desired.get(field_name)`
  abbrev pub differs : Fields → Fields → String → Bool
  differs existing desired key = not (same (or_null (get key existing)) (or_null (get key desired)))

  -- `_managed_metadata`: the desired fields, and which of the managed ones differ.
  unfoldable pub managed_metadata :
      {E : Type 0} → VirtualMachine → Fields → Result (ApplyError E) (Fields × List String)
  managed_metadata vm existing = do
    desired ← relabelled (build_vm_custom_fields print sort_key vm existing)
    ok (desired, keep (differs existing desired) managed_vm_custom_fields)

  unfoldable pub create_fields :
      {E : Type 0} → VirtualMachine → ℕ → Fields → Result (ApplyError E) (List (String × Json))
  unfolding desired_status
  create_fields vm cluster desired = do
    status ← desired_status vm
    ok (
        ("name", str vm.original_name)
        ∷ ("cluster", num cluster)
        ∷ ("status", str status)
        ∷ ("vcpus", num vm.vcpus)
        ∷ ("memory", num (desired_memory vm))
        ∷ ("disk", num (desired_disk vm))
        ∷ ("start_on_boot", str (desired_start_on_boot vm))
        ∷ ("custom_fields", obj desired)
        ∷ [])

  -- The comparisons of `_vm_changes`, in its order.
  unfoldable pub checks : VirtualMachine → ℕ → String → List Check
  checks vm cluster status =
      record { key = "name"; reader = λ v. v; wanted = str vm.original_name }
      ∷ record { key = "cluster"; reader = object_id; wanted = num cluster }
      ∷ record { key = "status"; reader = choice_value; wanted = str status }
      ∷ record { key = "vcpus"; reader = integer_value; wanted = num vm.vcpus }
      ∷ record { key = "memory"; reader = integer_value; wanted = num (desired_memory vm) }
      ∷ record { key = "disk"; reader = integer_value; wanted = num (desired_disk vm) }
      ∷ record {
        key = "start_on_boot";
        reader = choice_value;
        wanted = str (desired_start_on_boot vm);
      }
      ∷ []

  abbrev pub is_some_name : List String → Bool
  is_some_name [] = false
  is_some_name (k ∷ ks) = true

  unfoldable pub vm_changes :
      {E : Type 0}
      → Machine
      → VirtualMachine
      → ℕ
      → Fields
      → List String
      → Result (ApplyError E) (List (String × Json))
  unfolding desired_status checks
  vm_changes existing vm cluster desired changed = do
    status ← desired_status vm
    ok (
        diff same (checks vm cluster status) existing.serialized
        ++ custom_change (is_some_name changed) desired)
