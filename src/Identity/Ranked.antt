-- ===== src/Identity/Ranked.antt =====
-- What a rank of `source_identity_match_rank` of netbox_sync/source_identity.py says of the stored
-- values.
use infra_sync.Prelude.{
  ℕ, String, ◌≡◌, ◌≢◌, refl, sym, ap, ◌∙◌, ◌⊎◌, inl, inr, Bool, true, false, ◌&&◌, Option, none,
  some, List, arith, if◌then◌else◌, Result, ok, err, All, any, mem_text, to_ℕ, Bool-cases, eq_iff,
  ==_refl,
}
use infra_sync.Prelude.Members.{IsAmong, any-IsAmong, IsAmong-any, All_of}
use infra_sync.Json.{
  Json, null, bool, num, real, str, arr, obj, Fields, get, str_of, is_text, or_null,
}
use infra_sync.Identity.Record.{
  IdentityError, is_v2_text, SourceIdentity, same_identity_iff, from_record, is_v2,
}
use infra_sync.Identity.Rank.{
  match_rank, identities_of, Parses, stands_for, is_desired, is_legacy_match, legacy_id,
  match_rank_lem,
}

-- A record without the v2 schema, of the source type, with one of the legacy ids.
pub record IsLegacy (print : Json → String) (desired : SourceIdentity) (ids : List String)
    (v : Json) : Type 0 where
  pub fields : Fields
  pub value : v ≡ obj fields
  pub no_v2 : get "schema" fields ≢ some (str "v2")
  pub of_type : get "source" fields ≡ some (str desired.type)
  pub known : mem_text (str_of print (legacy_id fields)) ids ≡ true

-- What each rank stands for; `2` comes first, and `1` is for the legacy owner only.
pub data IsRank (print : Json → String) (desired : SourceIdentity) (ids : List String)
    (owner : Bool) (vs : List Json) : ℕ → Type 0 where
  v2_match :
      (v : Json)
      → IsAmong v vs
      → from_record print v ≡ ok (some desired)
      → IsRank print desired ids owner vs 2
  legacy_match :
      (v : Json)
      → All (λ u. from_record print u ≢ ok (some desired)) vs
      → owner ≡ true
      → IsAmong v vs
      → IsLegacy print desired ids v
      → IsRank print desired ids owner vs 1
  no_match :
      All (λ u. from_record print u ≢ ok (some desired)) vs
      → (owner ≡ false) ⊎ All (λ u. ¬ (IsLegacy print desired ids u)) vs
      → IsRank print desired ids owner vs 0

is_text-eq : (o : Option Json) (t : String) → is_text (or_null o) t ≡ true → o ≡ some (str t)
is_text-eq none t h = absurd (cc h)
is_text-eq (some (str s)) t h = ap (λ x. some (str x)) (ground (arith, eq_iff s t))
is_text-eq (some null) t h = absurd (cc h)
is_text-eq (some (bool b)) t h = absurd (cc h)
is_text-eq (some (num n)) t h = absurd (cc h)
is_text-eq (some (real r)) t h = absurd (cc h)
is_text-eq (some (arr xs)) t h = absurd (cc h)
is_text-eq (some (obj fs)) t h = absurd (cc h)

is_v2_text-eq : (o : Option Json) → is_v2_text o ≡ true → o ≡ some (str "v2")
is_v2_text-eq none h = absurd (cc h)
is_v2_text-eq (some (str s)) h = ap (λ x. some (str x)) (ground (arith, eq_iff s "v2"))
is_v2_text-eq (some null) h = absurd (cc h)
is_v2_text-eq (some (bool b)) h = absurd (cc h)
is_v2_text-eq (some (num n)) h = absurd (cc h)
is_v2_text-eq (some (real r)) h = absurd (cc h)
is_v2_text-eq (some (arr xs)) h = absurd (cc h)
is_v2_text-eq (some (obj fs)) h = absurd (cc h)

is_v2-true : (fs : Fields) → get "schema" fs ≡ some (str "v2") → is_v2 fs ≡ true
unfolding is_v2
is_v2-true fs h = rw h refl

is_v2-false : (fs : Fields) → get "schema" fs ≢ some (str "v2") → is_v2 fs ≡ false
unfolding is_v2
is_v2-false fs h = elim (Bool-cases (is_v2_text (get "schema" fs))) [
  | inl e ↦ absurd (h (is_v2_text-eq (get "schema" fs) e))
  | inr e ↦ e
]

module _ (print : Json → String) (desired : SourceIdentity) (ids : List String) where
  is_legacy_match-IsLegacy :
      (v : Json) → is_legacy_match print desired ids v ≡ true → IsLegacy print desired ids v
  unfolding is_legacy_match
  is_legacy_match-IsLegacy (obj fs) h = record {
    fields = fs;
    value = refl;
    no_v2 = λ e. absurd (ground (arith, is_v2-true fs e));
    of_type = is_text-eq (get "source" fs) desired.type (ground arith);
    known = ground arith;
  }
  is_legacy_match-IsLegacy null h = absurd (cc h)
  is_legacy_match-IsLegacy (bool b) h = absurd (cc h)
  is_legacy_match-IsLegacy (num n) h = absurd (cc h)
  is_legacy_match-IsLegacy (real r) h = absurd (cc h)
  is_legacy_match-IsLegacy (str s) h = absurd (cc h)
  is_legacy_match-IsLegacy (arr xs) h = absurd (cc h)

  IsLegacy-is_legacy_match :
      (v : Json) → IsLegacy print desired ids v → is_legacy_match print desired ids v ≡ true
  unfolding is_legacy_match
  IsLegacy-is_legacy_match v l =
      rw (l.value, l.of_type, l.known)
        (rw (is_v2-false l.fields l.no_v2) (ground (arith, ==_refl desired.type)))

  is_wanted : Result IdentityError (Option SourceIdentity) → Bool
  is_wanted (ok p) = is_desired desired p
  is_wanted (err e) = false

  is_wanted-eq :
      (r : Result IdentityError (Option SourceIdentity))
      → is_wanted r ≡ true
      → r ≡ ok (some desired)
  unfolding is_wanted
  is_wanted-eq (err e) k = absurd (cc k)
  is_wanted-eq (ok none) k = absurd (cc k)
  is_wanted-eq (ok (some i)) k = ap (λ x. ok (some x)) ((same_identity_iff i desired).0 k)

  stands_for-is_wanted : (v : Json) → stands_for print desired v ≡ is_wanted (from_record print v)
  unfolding stands_for is_wanted
  stands_for-is_wanted v = go (from_record print v)
    where
      go :
          (r : Result IdentityError (Option SourceIdentity))
          → elim r [ ok p ↦ is_desired desired p | err e ↦ false ] ≡ is_wanted r
      go (ok p) = refl
      go (err e) = refl

  stands_for-eq :
      (v : Json) → stands_for print desired v ≡ true → from_record print v ≡ ok (some desired)
  stands_for-eq v h = is_wanted-eq _ (sym (stands_for-is_wanted v) ∙ h)

  eq-stands_for :
      (v : Json) → from_record print v ≡ ok (some desired) → stands_for print desired v ≡ true
  unfolding is_wanted
  eq-stands_for v h =
      stands_for-is_wanted v ∙ ap is_wanted h ∙ (same_identity_iff desired desired).1 refl

  none_stands :
      (vs : List Json)
      → any (stands_for print desired) vs ≡ false
      → All (λ u. from_record print u ≢ ok (some desired)) vs
  none_stands vs h =
      All_of (λ u. from_record print u ≢ ok (some desired)) vs
        (λ u m e. cc (h, IsAmong-any (stands_for print desired) u vs m (eq-stands_for u e)))

  none-IsLegacy :
      (vs : List Json)
      → any (is_legacy_match print desired ids) vs ≡ false
      → All (λ u. ¬ (IsLegacy print desired ids u)) vs
  none-IsLegacy vs h =
      All_of (λ u. ¬ (IsLegacy print desired ids u)) vs
        (λ u m l. cc (
          h,
          IsAmong-any (is_legacy_match print desired ids) u vs m (IsLegacy-is_legacy_match u l),
        ))

  cases-IsRank :
      (owner : Bool) (vs : List Json) (found old : Bool)
      → any (stands_for print desired) vs ≡ found
      → any (is_legacy_match print desired ids) vs ≡ old
      → IsRank print desired ids owner vs (if found then 2 else to_ℕ (owner && old))
  cases-IsRank owner vs true old h k =
      let (v, m, e) = any-IsAmong (stands_for print desired) vs h in
      v2_match v m (stands_for-eq v e)
  cases-IsRank true vs false true h k =
      let (v, m, e) = any-IsAmong (is_legacy_match print desired ids) vs k in
      legacy_match v (none_stands vs h) refl m (is_legacy_match-IsLegacy v e)
  cases-IsRank true vs false false h k = no_match (none_stands vs h) (inr (none-IsLegacy vs k))
  cases-IsRank false vs false old h k = no_match (none_stands vs h) (inl refl)

  -- Where the stored records can be read there is a rank, and it is 2 only where a stored record is
  -- read as just this identity; 1 only where none is, the source is the legacy owner and a stored
  -- value without the schema v2 names the type of the source and one of the legacy ids; and 0 only
  -- where no record is read as the identity and the source is no legacy owner or no stored value is
  -- such a legacy one.
  pub match_rank-IsRank :
      (custom_fields : Fields) (owner : Bool) (vs : List Json)
      → identities_of custom_fields ≡ some vs
      → All (Parses print) vs
      → (rank : ℕ) × (match_rank print custom_fields desired ids owner ≡ ok rank)
        × IsRank print desired ids owner vs rank
  match_rank-IsRank custom_fields owner vs e h = (
    _,
    match_rank_lem print custom_fields desired ids owner vs e h,
    cases-IsRank owner vs _ _ refl refl,
  )
