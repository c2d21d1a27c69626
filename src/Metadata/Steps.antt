-- ===== src/Metadata/Steps.antt =====
-- The three steps that each builder of custom fields takes, and what they have in common.
use infra_sync.Prelude.{
  String, ◌≡◌, Bool, false, some, List, ◌∷◌, arith, mem_text, Result, ok, ◌>>=◌, >>=-eq-ok,
}
use infra_sync.Json.{
  Json, arr, obj, Fields, get, put, get-put, of_list, to_list-of_list, update, get-update, keys,
}
use infra_sync.Identity.Record.{IdentityError, SourceIdentity, IsValid}
use infra_sync.Identity.Rank.{match_rank, identities_of}
use infra_sync.Identity.Merge.{merge_source_identities, merge_original_name}
use infra_sync.Identity.Merge.Laws.{merge-match_rank}
use infra_sync.Metadata.{sync_items}

module _ (print sort_key : Json → String) (identity : Result IdentityError SourceIdentity)
    (base : Fields) (name : Json) (items : List (String × Json)) (existing : Fields) where
  abbrev pub steps : Result IdentityError Fields
  steps = do
    desired ← identity
    identities ← merge_source_identities print sort_key base desired
    names ← merge_original_name base desired name
    ok (update (sync_items identities names items) existing)

  -- What the three steps returned on the way to a result.
  pub record Built (result : Fields) : Type 0 where
    pub desired : SourceIdentity
    pub values : List Json
    pub names : Fields
    pub identity_eq : identity ≡ ok desired
    pub merged : merge_source_identities print sort_key base desired ≡ ok values
    pub named : merge_original_name base desired name ≡ ok names
    pub result_eq : result ≡ update (sync_items values names items) existing

  pub built : (result : Fields) → steps ≡ ok result → Built result
  built result h =
      let (desired, e, more) = >>=-eq-ok identity _ h in
      let (values, merged, more') =
        >>=-eq-ok (merge_source_identities print sort_key base desired) _ more in
      let (names, named, done) = >>=-eq-ok (merge_original_name base desired name) _ more' in
      record {
        desired = desired;
        values = values;
        names = names;
        identity_eq = e;
        merged = merged;
        named = named;
        result_eq = cc;
      }

  Built-identities_of :
      (result : Fields)
      → mem_text "sync_identities" (keys items) ≡ false
      → (b : Built result) → identities_of result ≡ some b.values
  unfolding identities_of update
  Built-identities_of result other b = ground (
    arith,
    b.result_eq,
    to_list-of_list b.values,
    get-update "sync_identities" items (
        put "sync_original_names" (obj b.names)
          (put "sync_identities" (arr (of_list b.values)) existing)),
    get-put "sync_original_names" "sync_identities" (obj b.names)
        (put "sync_identities" (arr (of_list b.values)) existing),
    get-put "sync_identities" "sync_identities" (arr (of_list b.values)) existing,
  )

  -- The result is a v2 match of the identity that was built.
  pub Built-match_rank :
      (result : Fields) (ids : List String) (owner : Bool)
      → mem_text "sync_identities" (keys items) ≡ false
      → ((i : SourceIdentity) → identity ≡ ok i → IsValid i)
      → (b : Built result) → match_rank print result b.desired ids owner ≡ ok 2
  Built-match_rank result ids owner other valid b =
      merge-match_rank print sort_key base result b.desired b.values ids owner
        (valid b.desired b.identity_eq) b.merged (Built-identities_of result other b)

  -- A key that is not written keeps its value.
  pub get-steps :
      (result : Fields) (key : String)
      → mem_text key ("sync_identities" ∷ "sync_original_names" ∷ keys items) ≡ false
      → steps ≡ ok result
      → get key result ≡ get key existing
  get-steps result key other h =
      let b = built result h in
      rw b.result_eq (get-update key (sync_items b.values b.names items) existing other)
