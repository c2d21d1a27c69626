-- ===== src/Disappearance/Identities.antt =====
-- The managed identity of a NetBox object, among those of the sources of this run.
use Prim.Native.String.{◌++◌}
use text.Mathlib.Text.{starts_with}
use infra_sync.Prelude.{
  String, Bool, true, false, not, ◌&&◌, ◌||◌, Option, none, some, List, [], ◌∷◌, ◌==◌,
  if◌then◌else◌, Result, ok, err, ◌>>=◌, eqb, keep, any,
}
use infra_sync.Json.{
  Json, null, bool, num, real, str, arr, obj, nil, cons, Fields, end, field, get, str_of, or_null,
}
use infra_sync.Discovery.{Host}
use infra_sync.Identity.Record.{IdentityError, SourceIdentity, from_record, same_identity}
use infra_sync.Identity.Rank.{identities_of, legacy_id}
use infra_sync.Metadata.{local_source_id}

-- The members of the sets: v1 pairs and v2 identities.
pub data Identity : Type 0 where
  v1 : (source source_id : String) → Identity
  v2 : SourceIdentity → Identity

unfoldable pub same : Identity → Identity → Bool
same (v1 s i) (v1 t j) = s == t && i == j
same (v2 a) (v2 b) = same_identity a b
same (v1 s i) (v2 b) = false
same (v2 a) (v1 t j) = false

-- `identity in identities`
unfoldable pub is_member : Identity → List Identity → Bool
unfolding same
is_member i identities = any (same i) identities

pub data ReportError : Type 0 where
  target_site_not_found ambiguous_cluster multiple_v2 multiple_v1 : ReportError
  bad_record : IdentityError → ReportError

abbrev pub lifted : {A : Type 0} → Result IdentityError A → Result ReportError A
lifted (ok a) = ok a
lifted (err e) = err (bad_record e)

-- What the hosts of this run own: pairs of source and instance, and for legacy owners pairs of
-- source and id prefix. Both are sets.
pub record Scope : Type 0 where
  pub instances : List (String × String)
  pub prefixes : List (String × String)

unfoldable pub has_pair : String → String → List (String × String) → Bool
has_pair s t [] = false
has_pair s t ((u, v) ∷ ps) = u == s && v == t || has_pair s t ps

-- `set.add((s, t))`
unfoldable pub add_pair : String → String → List (String × String) → List (String × String)
unfolding has_pair
add_pair s t ps = if has_pair s t ps then ps else (s, t) ∷ ps

unfoldable pub add_host : Host → Scope → Scope
unfolding add_pair local_source_id
add_host host scope = record {
  instances = add_pair host.source host.source_instance scope.instances;
  prefixes =
      if host.legacy_identity_owner
      then add_pair host.source (local_source_id host.source host.source_id ++ ":") scope.prefixes
      else scope.prefixes;
}

unfoldable pub scope_of : List Host → Scope
unfolding add_host
scope_of [] = record { instances = []; prefixes = [] }
scope_of (host ∷ hosts) = add_host host (scope_of hosts)

-- Python's truth of a value.
unfoldable pub is_truthy : Json → Bool
is_truthy null = false
is_truthy (bool b) = b
is_truthy (num n) = not (eqb n 0)
is_truthy (real s) = not (s == "0.0" || s == "-0.0")
is_truthy (str s) = not (s == "")
is_truthy (arr nil) = false
is_truthy (arr (cons x xs)) = true
is_truthy (obj end) = false
is_truthy (obj (field k v fs)) = true

-- `_identities`
unfoldable pub v1_identities : (Json → String) → List Json → List (String × String)
unfolding is_truthy
v1_identities print [] = []
v1_identities print (obj fs ∷ values) =
    let source = or_null (get "source" fs) in
    let rest = v1_identities print values in
    if is_truthy source && is_truthy (legacy_id fs)
    then (str_of print source, str_of print (legacy_id fs)) ∷ rest
    else rest
v1_identities print (v ∷ values) = v1_identities print values

-- `_v2_identities`
unfoldable pub v2_identities :
    (Json → String) → List Json → Result ReportError (List SourceIdentity)
v2_identities print [] = ok []
v2_identities print (v ∷ values) = do
  parsed ← lifted (from_record print v)
  rest ← v2_identities print values
  ok (elim parsed [ none ↦ rest | some i ↦ i ∷ rest ])

abbrev pub values_of : Fields → List Json
values_of custom_fields = elim (identities_of custom_fields) [ none ↦ [] | some values ↦ values ]

-- A pair, once for each scope that it falls in.
unfoldable pub in_scopes : String × String → List (String × String) → List (String × String)
in_scopes (source, source_id) [] = []
in_scopes (source, source_id) ((scoped, prefix) ∷ scopes) =
    let rest = in_scopes (source, source_id) scopes in
    if source == scoped && starts_with source_id prefix then (source, source_id) ∷ rest else rest

unfoldable pub v1_matches : List (String × String) → List (String × String) → List (String × String)
unfolding in_scopes
v1_matches scopes [] = []
v1_matches scopes (p ∷ ps) = mathlib.Core.List.◌++◌ (in_scopes p scopes) (v1_matches scopes ps)

abbrev pub pick_v1 : List (String × String) → Result ReportError (Option Identity)
pick_v1 [] = ok none
pick_v1 ((s, i) ∷ []) = ok (some (v1 s i))
pick_v1 (p ∷ q ∷ ps) = err multiple_v1

abbrev pub pick :
    List SourceIdentity → List (String × String) → Result ReportError (Option Identity)
pick [] pairs = pick_v1 pairs
pick (i ∷ []) pairs = ok (some (v2 i))
pick (i ∷ j ∷ is) pairs = err multiple_v2

-- `managed_identity`: a v2 identity of the sources of this run, else a v1 pair in scope.
unfoldable pub managed_identity :
    (Json → String) → Scope → Fields → Result ReportError (Option Identity)
unfolding v2_identities v1_identities v1_matches has_pair
managed_identity print scope custom_fields = do
  all_v2 ← v2_identities print (values_of custom_fields)
  pick (keep (λ (i : SourceIdentity). has_pair i.type i.instance_name scope.instances) all_v2)
      (v1_matches scope.prefixes (v1_identities print (values_of custom_fields)))
