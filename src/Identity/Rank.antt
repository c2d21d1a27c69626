-- ===== src/Identity/Rank.antt =====
-- `source_identity_match_rank` of netbox_sync/source_identity.py: how well the records that a
-- NetBox object carries match one identity.
use infra_sync.Prelude.{
  ℕ, String, ◌≡◌, ◌≢◌, refl, ◌⊎◌, Bool, true, false, ◌&&◌, not, Option, none, some, List, [], ◌∷◌,
  arith, if◌then◌else◌, Result, ok, err, ◌>>=◌, All, any, mem_text, to_ℕ,
}
use infra_sync.Json.{Json, arr, obj, Fields, get, str_of, is_text, or_null, to_list}
use infra_sync.Identity.Record.{IdentityError, SourceIdentity, same_identity, from_record, is_v2}

abbrev pub no_identity_match : ℕ
no_identity_match = 0

abbrev pub legacy_identity_match : ℕ
legacy_identity_match = 1

abbrev pub v2_identity_match : ℕ
v2_identity_match = 2

-- `dict(custom_fields or {}).get('sync_identities')`, read as a list: `none` for any other value
unfoldable pub identities_of : Fields → Option (List Json)
identities_of custom_fields = elim (get "sync_identities" custom_fields) [
  | some (arr xs) ↦ some (to_list xs)
  | _ ↦ none
]

abbrev pub is_desired : SourceIdentity → Option SourceIdentity → Bool
is_desired desired none = false
is_desired desired (some i) = same_identity i desired

-- The first loop: it ends at the first match, and at the first record that does not parse.
unfoldable pub has_v2 : (Json → String) → SourceIdentity → List Json → Result IdentityError Bool
has_v2 print desired [] = ok false
has_v2 print desired (v ∷ vs) = do
  parsed ← from_record print v
  let rest = has_v2 print desired vs
  if is_desired desired parsed then ok true else rest

-- `value.get('source_id', value.get('id'))`
unfoldable pub legacy_id : Fields → Json
legacy_id fs = elim (get "source_id" fs) [ some v ↦ v | none ↦ or_null (get "id" fs) ]

-- The test of the second loop on one stored value.
unfoldable pub is_legacy_match : (Json → String) → SourceIdentity → List String → Json → Bool
unfolding is_v2 legacy_id
is_legacy_match print desired wanted (obj fs) =
    not (is_v2 fs)
    && is_text (or_null (get "source" fs)) desired.type
    && mem_text (str_of print (legacy_id fs)) wanted
is_legacy_match print desired wanted _ = false

-- `custom_fields` is `custom_fields or {}`, and the legacy ids are texts already.
unfoldable pub match_rank :
    (Json → String) → Fields → SourceIdentity → List String → Bool → Result IdentityError ℕ
match_rank print custom_fields desired legacy_source_ids legacy_identity_owner =
    elim (identities_of custom_fields) [
      | none ↦ ok no_identity_match
      | some values ↦ has_v2 print desired values >>= λ found.
          if found
          then ok v2_identity_match
          else if not legacy_identity_owner
          then ok no_identity_match
          else if any (is_legacy_match print desired legacy_source_ids) values
          then ok legacy_identity_match
          else ok no_identity_match
    ]

-- Every record of the list can be read.
abbrev pub Parses : (Json → String) → Json → Type 0
Parses print v = (p : Option SourceIdentity) × (from_record print v ≡ ok p)

-- The value is a v2 record of just this identity.
unfoldable pub stands_for : (Json → String) → SourceIdentity → Json → Bool
stands_for print desired v = elim (from_record print v) [
  | ok p ↦ is_desired desired p
  | err e ↦ false
]

-- Where every record can be read, the first loop looks for one that stands for the identity.
has_v2-eq-any :
    (print : Json → String) (desired : SourceIdentity) (vs : List Json)
    → All (Parses print) vs
    → has_v2 print desired vs ≡ ok (any (stands_for print desired) vs)
unfolding has_v2 stands_for
has_v2-eq-any print desired [] h = refl
has_v2-eq-any print desired (v ∷ vs) h = ground (arith, has_v2-eq-any print desired vs h.1, h.0.1)

-- A source that is not the legacy owner never matches a v1 record, and whoever asks, a v2 match
-- has a record that stands for the identity.
match_rank-ne-legacy :
    (print : Json → String) (custom_fields : Fields) (desired : SourceIdentity) (ids : List String)
    → match_rank print custom_fields desired ids false ≢ ok legacy_identity_match
unfolding match_rank
match_rank-ne-legacy print custom_fields desired ids h = ground arith

has_v2-true :
    (print : Json → String) (desired : SourceIdentity) (vs : List Json)
    → has_v2 print desired vs ≡ ok true
    → any (stands_for print desired) vs ≡ true
unfolding has_v2 stands_for
has_v2-true print desired [] h = cc
has_v2-true print desired (v ∷ vs) h = ground (arith, has_v2-true print desired vs)

-- The rank, where the stored records can be read: 2 if one stands for the identity, else 1 if the
-- source is the legacy owner and a record without the v2 schema names its type and one of the
-- legacy ids, else 0.
pub match_rank_lem :
    (print : Json → String) (custom_fields : Fields) (desired : SourceIdentity) (ids : List String)
    (owner : Bool) (vs : List Json)
    → identities_of custom_fields ≡ some vs
    → All (Parses print) vs
    → match_rank print custom_fields desired ids owner
      ≡ ok (
          if any (stands_for print desired) vs
          then 2
          else to_ℕ (owner && any (is_legacy_match print desired ids) vs))
unfolding match_rank
match_rank_lem print custom_fields desired ids owner vs e h =
    ground (arith, has_v2-eq-any print desired vs h)

-- The rank is one of the three constants.
match_rank-le :
    (print : Json → String) (custom_fields : Fields) (desired : SourceIdentity) (ids : List String)
    (owner : Bool) (r : ℕ)
    → match_rank print custom_fields desired ids owner ≡ ok r
    → (r ≡ 0) ⊎ (r ≡ 1) ⊎ (r ≡ 2)
unfolding match_rank
match_rank-le print custom_fields desired ids owner r h = ground arith
