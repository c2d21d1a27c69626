-- ===== src/Identity/Merge/Loop.antt =====
-- The loop of `merge_source_identities`, and what a merge returns where every stored value can be
-- read.
use mathlib.Core.List as CoreList
use mathlib.Core.List.{Perm, perm_append_singleton, append-nil}
use mathlib.Core.List.Perm
use infra_sync.Prelude.{
  String, ◌≡◌, refl, Bool, true, false, not, some, List, [], ◌∷◌, arith, ==_refl, ok, err,
  >>=-eq-ok, All, All-append, any, keep, All-keep,
}
use infra_sync.Prelude.Sorting.{sort_by, All-sort_by}
use infra_sync.Json.{Json, arr, obj, Fields, put, get-put, of_list, to_list-of_list}
use infra_sync.Identity.Record.{
  SourceIdentity, IsValid, same_identity_iff, from_record, to_record, from_record-to_record,
}
use infra_sync.Identity.Rank.{identities_of, Parses, stands_for}
use infra_sync.Identity.Merge.{
  same_namespace, is_owned, foreign_records, stored_identities, merge_source_identities,
}

-- A stored value that is read as an identity in the namespace of `desired`.
unfoldable pub owned : (Json → String) → SourceIdentity → Json → Bool
owned print desired v = elim (from_record print v) [ ok p ↦ is_owned desired p | err e ↦ false ]

abbrev pub is_object : Json → Bool
is_object (obj fs) = true
is_object _ = false

-- A `dict` that can be read.
abbrev pub IsReadable : (Json → String) → Json → Type 0
IsReadable print v = (is_object v ≡ true) × Parses print v

abbrev pub not_owned : (Json → String) → SourceIdentity → Json → Bool
not_owned print desired v = not (owned print desired v)

-- The loop runs through exactly where every value is a `dict` that can be read.
pub foreign_records-eq-keep :
    (print : Json → String) (desired : SourceIdentity) (vs : List Json)
    → All (IsReadable print) vs
    → foreign_records print desired vs ≡ ok (keep (not_owned print desired) vs)
unfolding foreign_records owned
foreign_records-eq-keep print desired [] h = refl
foreign_records-eq-keep print desired (obj fs ∷ vs) h =
    ground (arith, foreign_records-eq-keep print desired vs h.1, h.0.1.1)
foreign_records-eq-keep print desired (v ∷ vs) h = cc (h.0.0)

pub foreign_records-IsReadable :
    (print : Json → String) (desired : SourceIdentity) (vs kept : List Json)
    → foreign_records print desired vs ≡ ok kept
    → All (IsReadable print) vs
unfolding foreign_records
foreign_records-IsReadable print desired [] kept h = tt
foreign_records-IsReadable print desired (obj fs ∷ vs) kept h =
    let (p, parsed, more) = >>=-eq-ok (from_record print (obj fs)) _ h in
    let (rest, tail, _) = >>=-eq-ok (foreign_records print desired vs) _ more in
    ((refl, (p, parsed)), foreign_records-IsReadable print desired vs rest tail)
foreign_records-IsReadable print desired (v ∷ vs) kept h = cc

-- The custom fields with the merged list written back.
abbrev pub with_identities : Fields → List Json → Fields
with_identities custom_fields values = put "sync_identities" (arr (of_list values)) custom_fields

identities_of-with_identities :
    (custom_fields : Fields) (values : List Json)
    → identities_of (with_identities custom_fields values) ≡ some values
unfolding identities_of
identities_of-with_identities custom_fields values = ground (
  arith,
  get-put "sync_identities" "sync_identities" (arr (of_list values)) custom_fields,
  to_list-of_list values,
)

pub stored_identities-with_identities :
    (custom_fields : Fields) (values : List Json)
    → stored_identities (with_identities custom_fields values) ≡ ok values
unfolding stored_identities
stored_identities-with_identities custom_fields values = ground (
  arith,
  get-put "sync_identities" "sync_identities" (arr (of_list values)) custom_fields,
  to_list-of_list values,
)

module _ (print : Json → String) (desired : SourceIdentity) (valid : IsValid desired) where
  abbrev pub own : List Json
  own = to_record desired ∷ []

  own-IsReadable : All (IsReadable print) own
  unfolding to_record
  own-IsReadable =
      ((refl, (some desired, unfold to_record in from_record-to_record print desired valid)), tt)

  pub own-owned : keep (not_owned print desired) own ≡ []
  unfolding owned same_namespace
  own-owned = ground (
    arith,
    from_record-to_record print desired valid,
    ==_refl desired.type,
    ==_refl desired.instance_name,
    ==_refl desired.kind,
  )

  pub own-stands_for : any (stands_for print desired) own ≡ true
  unfolding stands_for
  own-stands_for =
      ground (
        arith,
        from_record-to_record print desired valid,
        (same_identity_iff desired desired).1 refl,
      )

  module _ (sort_key : Json → String) where
    -- What a successful merge returns, before sorting.
    abbrev pub merged : List Json → List Json
    merged vs = CoreList.◌++◌ (keep (not_owned print desired) vs) own

    pub merged-IsReadable :
        (vs : List Json)
        → All (IsReadable print) vs
        → All (IsReadable print) (sort_by sort_key (merged vs))
    merged-IsReadable vs h = All-sort_by sort_key (IsReadable print) (merged vs) (
        All-append (IsReadable print) (keep (not_owned print desired) vs) own
          (All-keep (IsReadable print) (not_owned print desired) vs h) own-IsReadable)

    pub merge-eq-ok :
        (custom_fields : Fields) (vs : List Json)
        → stored_identities custom_fields ≡ ok vs
        → All (IsReadable print) vs
        → merge_source_identities print sort_key custom_fields desired
          ≡ ok (sort_by sort_key (merged vs))
    unfolding merge_source_identities
    merge-eq-ok custom_fields vs e h = rw (e, foreign_records-eq-keep print desired vs h)
