-- ===== src/Identity/Merge/Laws.antt =====
-- What `merge_source_identities` and `merge_original_name` guarantee.
use mathlib.Core.List as CoreList
use mathlib.Core.List.{Perm, perm_append_singleton, append-nil}
use mathlib.Core.List.Perm
use infra_sync.Prelude.{
  ap, sym, ◌∙◌, String, ◌≡◌, Bool, true, some, List, [], ◌∷◌, arith, ok, >>=-eq-ok, All, All-map_of,
  any, any-append, keep, keep-keep, keep-append,
}
use infra_sync.Prelude.Stable.{keep-sort_by, sort_by-sort_by-append}
use infra_sync.Prelude.Sorting.{sort_by, sort_by-perm, any-sort_by}
use infra_sync.Json.{Json, Fields}
use infra_sync.Identity.Record.{SourceIdentity, IsValid, to_record}
use infra_sync.Identity.Rank.{
  match_rank, identities_of, Parses, stands_for, match_rank_lem, v2_identity_match,
}
use infra_sync.Identity.Merge.{foreign_records, stored_identities, merge_source_identities}
use infra_sync.Identity.Merge.Loop.{
  IsReadable, not_owned, with_identities, stored_identities-with_identities,
  foreign_records-eq-keep, foreign_records-IsReadable, merged-IsReadable, merge-eq-ok, own-owned,
  own-stands_for,
}

-- What a successful merge started from, and what it returns.
record Outcome (print sort_key : Json → String) (custom_fields : Fields) (desired : SourceIdentity)
    (result : List Json) : Type 0 where
  stored : List Json
  stored_eq : stored_identities custom_fields ≡ ok stored
  readable : All (IsReadable print) stored
  result_eq :
      result
      ≡ sort_by sort_key
          (CoreList.◌++◌ (keep (not_owned print desired) stored) (to_record desired ∷ []))

merge_outcome :
    (print sort_key : Json → String) (custom_fields : Fields) (desired : SourceIdentity)
    (result : List Json)
    → merge_source_identities print sort_key custom_fields desired ≡ ok result
    → Outcome print sort_key custom_fields desired result
unfolding merge_source_identities
merge_outcome print sort_key custom_fields desired result h =
    let (vs, stored, more) = >>=-eq-ok (stored_identities custom_fields) _ h in
    let (kept, looped, done) = >>=-eq-ok (foreign_records print desired vs) _ more in
    let readable = foreign_records-IsReadable print desired vs kept looped in
    record {
      stored = vs;
      stored_eq = stored;
      readable = readable;
      result_eq = cc (foreign_records-eq-keep print desired vs readable);
    }

-- Where the list that a successful merge of a valid identity returns is stored, the object is a v2
-- match of that identity, for any legacy ids and whoever owns the legacy records.
pub merge-match_rank :
    (print sort_key : Json → String) (custom_fields after : Fields) (desired : SourceIdentity)
    (result : List Json) (ids : List String) (owner : Bool)
    → IsValid desired
    → merge_source_identities print sort_key custom_fields desired ≡ ok result
    → identities_of after ≡ some result
    → match_rank print after desired ids owner ≡ ok v2_identity_match
merge-match_rank print sort_key custom_fields after desired result ids owner valid h stored =
    let o = merge_outcome print sort_key custom_fields desired result h in
    let readable = merged-IsReadable print desired valid sort_key o.stored o.readable in
    let found : any (stands_for print desired) result ≡ true =
      rw o.result_eq
        (rw any-sort_by (rw any-append (ground (arith, own-stands_for print desired valid)))) in
    let ranked = match_rank_lem print after desired ids owner result stored (
      All-map_of (IsReadable print) (Parses print) result (λ x r. r.1) (rw o.result_eq readable)) in
    rw found at ranked

-- A successful merge into a stored list returns, in some order, the stored records of other
-- namespaces, v1 records among them, and one record of the merged identity.
pub merge-perm :
    (print sort_key : Json → String) (custom_fields : Fields) (desired : SourceIdentity)
    (vs result : List Json)
    → identities_of custom_fields ≡ some vs
    → merge_source_identities print sort_key custom_fields desired ≡ ok result
    → Perm result (to_record desired ∷ keep (not_owned print desired) vs)
unfolding identities_of stored_identities
merge-perm print sort_key custom_fields desired vs result e h =
    let o = merge_outcome print sort_key custom_fields desired result h in
    let same : o.stored ≡ vs = ground (arith, o.stored_eq) in
    rw o.result_eq (rw same (Perm.trans (sort_by-perm sort_key _) (perm_append_singleton _ _)))

-- Where the list that a merge returned is what is stored, a second merge returns it again.
pub merge_again :
    (print sort_key : Json → String) (custom_fields after : Fields) (desired : SourceIdentity)
    (result : List Json)
    → IsValid desired
    → merge_source_identities print sort_key custom_fields desired ≡ ok result
    → stored_identities after ≡ ok result
    → merge_source_identities print sort_key after desired ≡ ok result
merge_again print sort_key custom_fields after desired result valid h stored =
    let o = merge_outcome print sort_key custom_fields desired result h in
    let kept = keep (not_owned print desired) o.stored in
    let readable = merged-IsReadable print desired valid sort_key o.stored o.readable in
    let foreign : keep (not_owned print desired) result ≡ sort_by sort_key kept =
      rw o.result_eq
        (rw (keep-sort_by, keep-append, keep-keep, own-owned print desired valid, append-nil)) in
    merge-eq-ok print desired valid sort_key after result stored (rw o.result_eq readable)
    ∙ ap ok (
        ap (λ l. sort_by sort_key (CoreList.◌++◌ l (to_record desired ∷ []))) foreign
        ∙ sort_by-sort_by-append sort_key kept (to_record desired ∷ [])
        ∙ sym o.result_eq)

-- After a successful merge of a valid identity, a second merge of it into the stored result
-- succeeds and returns the very same list.
pub merge_idem :
    (print sort_key : Json → String) (custom_fields : Fields) (desired : SourceIdentity)
    (result : List Json)
    → IsValid desired
    → merge_source_identities print sort_key custom_fields desired ≡ ok result
    → merge_source_identities print sort_key (with_identities custom_fields result) desired
      ≡ ok result
merge_idem print sort_key custom_fields desired result valid h =
    merge_again print sort_key custom_fields (with_identities custom_fields result) desired result
      valid h (stored_identities-with_identities custom_fields result)
