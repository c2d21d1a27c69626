-- ===== src/Disappearance/Laws.antt =====
-- What `report_missing_managed_objects` lists, said of each object by itself.
use infra_sync.Prelude.{
  ◌≡◌, >>=-eq-ok, refl, Bool, true, Option, none, some, String, List, [], ◌∷◌, ◌++◌, arith,
  if◌then◌else◌, Result, ok, err, keep,
}
use infra_sync.Json.{Json, Fields}
use infra_sync.Identity.Record.{SourceIdentity}
use infra_sync.Disappearance.{Vm, Interface, interfaces_of}
use infra_sync.Disappearance.Identities.{
  Identity, v2, Scope, is_member, has_pair, managed_identity, pick, v2_identities, values_of,
  ReportError,
}

keep-one : {A : Type 0} (p : A → Bool) (xs : List A) (x : A) → keep p xs ≡ x ∷ [] → p x ≡ true
keep-one p [] x h = absurd (cc h)
keep-one p (y ∷ ys) x h = ground (arith, keep-one p ys x)

pick-eq-v2 :
    (p : SourceIdentity → Bool) (xs ys : List SourceIdentity) (pairs : List (String × String))
    (i : SourceIdentity)
    → keep p xs ≡ ys
    → pick ys pairs ≡ ok (some (v2 i))
    → p i ≡ true
pick-eq-v2 p xs [] [] i k h = absurd (cc h)
pick-eq-v2 p xs [] (q ∷ []) i k h = absurd (cc h)
pick-eq-v2 p xs [] (q ∷ q' ∷ qs) i k h = absurd (cc h)
pick-eq-v2 p xs (j ∷ []) pairs i k h = cc (keep-one p xs j k, h)
pick-eq-v2 p xs (j ∷ j' ∷ js) pairs i k h = absurd (cc h)

-- A v2 identity that makes an object a managed one names a source and an instance of this run: the
-- objects of other sources are never counted or reported by it.
pub managed_identity-in_scope :
    (print : Json → String) (scope : Scope) (custom_fields : Fields) (i : SourceIdentity)
    → managed_identity print scope custom_fields ≡ ok (some (v2 i))
    → has_pair i.type i.instance_name scope.instances ≡ true
unfolding managed_identity
managed_identity-in_scope print scope custom_fields i h =
    let (all, parsed, picked) = >>=-eq-ok (v2_identities print (values_of custom_fields)) _ h in
    pick-eq-v2 (λ (j : SourceIdentity). has_pair j.type j.instance_name scope.instances) all _ _ i
      refl picked

module _ (print : Json → String) (scope : Scope) (guests nics : List Identity) where
  -- A guest in front of those listed: it is listed too if it is managed and was not discovered.
  unfoldable pub listed :
      Vm → Result ReportError (Option Identity) → List (Vm × Identity) → List (Vm × Identity)
  listed vm (err e) rest = rest
  listed vm (ok none) rest = rest
  listed vm (ok (some i)) rest = if is_member i guests then rest else (vm, i) ∷ rest

  unfoldable pub missing_of : List Vm → List (Vm × Identity)
  unfolding listed
  missing_of [] = []
  missing_of (vm ∷ vms) = listed vm (managed_identity print scope vm.custom_fields) (missing_of vms)

  -- The same of the interfaces of one guest.
  unfoldable pub listed_nic :
      Vm
      → Interface
      → Result ReportError (Option Identity)
      → List (Vm × Interface × Identity)
      → List (Vm × Interface × Identity)
  listed_nic vm interface (err e) rest = rest
  listed_nic vm interface (ok none) rest = rest
  listed_nic vm interface (ok (some i)) rest =
      if is_member i nics then rest else (vm, interface, i) ∷ rest

  unfoldable pub missing_nics : Vm → List Interface → List (Vm × Interface × Identity)
  unfolding listed_nic
  missing_nics vm [] = []
  missing_nics vm (interface ∷ rest) =
      listed_nic vm interface (managed_identity print scope interface.custom_fields)
        (missing_nics vm rest)

  -- The interfaces of a guest that is not managed, or is missing itself, are not listed.
  unfoldable pub listed_nics :
      List Interface → Vm → Result ReportError (Option Identity) → List (Vm × Interface × Identity)
  unfolding missing_nics
  listed_nics interfaces vm (err e) = []
  listed_nics interfaces vm (ok none) = []
  listed_nics interfaces vm (ok (some i)) =
      if is_member i guests then missing_nics vm (interfaces_of vm.id interfaces) else []

  unfoldable pub missing_nics_of : List Interface → List Vm → List (Vm × Interface × Identity)
  unfolding listed_nics
  missing_nics_of interfaces [] = []
  missing_nics_of interfaces (vm ∷ vms) =
      listed_nics interfaces vm (managed_identity print scope vm.custom_fields)
      ++ missing_nics_of interfaces vms
