-- ===== src/Identity/Merge.antt =====
-- `merge_source_identities`, `merge_original_name` and `original_name_key` of
-- netbox_sync/source_identity.py.
pub mod Loop
pub mod Laws
use Prim.Native.String.{◌++◌}
use mathlib.Core.List as CoreList
use mathlib.Core.List.{Perm, perm_append_singleton, append-nil}
use mathlib.Core.List.Perm
use infra_sync.Prelude.{
  ℕ, String, ◌≡◌, ◌≢◌, refl, sym, ap, ◌↔◌, ◌⊎◌, inl, inr, Bool, true, false, ◌&&◌, ◌||◌, not,
  Option, none, some, List, [], ◌∷◌, map, arith, ◌==◌, ==_refl, eq_iff, if◌then◌else◌, Result, ok,
  err, ◌>>=◌, >>=-eq-ok, All, All-append, All-map_of, ◌∙◌, any, any-append, keep, All-keep,
  keep-keep, keep-append, Bool-cases, is_blank,
}
use infra_sync.Prelude.Sorting.{sort_by, sort_by-perm, any-sort_by, All-sort_by, keep-sort_by-perm}
use infra_sync.Json.{
  Json, null, bool, num, real, str, arr, obj, Fields, end, field, get, put, get-put, to_list,
  of_list, to_list-of_list,
}
use infra_sync.Identity.Record.{
  IdentityError, identities_not_list, unsupported_value, names_not_object, SourceIdentity, IsValid,
  same_identity, same_identity_iff, from_record, to_record, from_record-to_record,
}
use infra_sync.Identity.Rank.{
  match_rank, identities_of, Parses, stands_for, match_rank_lem, v2_identity_match,
}

-- The v2 namespace of an identity: type, instance and kind.
unfoldable pub same_namespace : SourceIdentity → SourceIdentity → Bool
same_namespace a b = a.type == b.type && a.instance_name == b.instance_name && a.kind == b.kind

abbrev pub is_owned : SourceIdentity → Option SourceIdentity → Bool
is_owned desired none = false
is_owned desired (some i) = same_namespace i desired

-- The loop: the records that are kept.
unfoldable pub foreign_records :
    (Json → String) → SourceIdentity → List Json → Result IdentityError (List Json)
foreign_records print desired [] = ok []
foreign_records print desired (obj fs ∷ vs) = do
  parsed ← from_record print (obj fs)
  rest ← foreign_records print desired vs
  ok (if is_owned desired parsed then rest else obj fs ∷ rest)
foreign_records print desired (v ∷ vs) = err unsupported_value

-- `dict(custom_fields or {}).get('sync_identities', [])`, which must be a list
unfoldable pub stored_identities : Fields → Result IdentityError (List Json)
stored_identities custom_fields = elim (get "sync_identities" custom_fields) [
  | none ↦ ok []
  | some (arr xs) ↦ ok (to_list xs)
  | _ ↦ err identities_not_list
]

-- `sort_key` is `lambda value: repr(sorted(value.items()))`
unfoldable pub merge_source_identities :
    (print sort_key : Json → String) → Fields → SourceIdentity → Result IdentityError (List Json)
unfolding stored_identities
merge_source_identities print sort_key custom_fields desired = do
  identities ← stored_identities custom_fields
  result ← foreign_records print desired identities
  ok (sort_by sort_key (CoreList.◌++◌ result (to_record desired ∷ [])))

unfoldable pub original_name_key : SourceIdentity → String
original_name_key i = i.type ++ ("/" ++ (i.instance_name ++ ("/" ++ i.kind)))

abbrev pub renamed : String → Json → Option Json → Result IdentityError Fields
renamed key original_name none = ok (put key original_name end)
renamed key original_name (some (obj names)) = ok (put key original_name names)
renamed key original_name _ = err names_not_object

unfoldable pub merge_original_name : Fields → SourceIdentity → Json → Result IdentityError Fields
unfolding original_name_key
merge_original_name custom_fields desired original_name =
    renamed (original_name_key desired) original_name (get "sync_original_names" custom_fields)
