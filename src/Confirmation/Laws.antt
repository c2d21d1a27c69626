-- ===== src/Confirmation/Laws.antt =====
-- A capability is good once, for its source, until it expires.
use infra_sync.Prelude.{
  ℕ, ◌+◌, ◌≤◌, ◌<◌, String, ◌≡◌, ◌≢◌, inl, inr, Option-cases, true, not, none, some, List, [], ◌∷◌,
  arith, ◌==◌, ==_refl, eq_iff, ltb, if◌then◌else◌, ok, err, length, length-keep-le, keep,
  text_length,
}
use infra_sync.Confirmation.{
  ConfirmationClaims, invalid, Entry, is_ascii, find_entry, without, issue, check_entry, consume,
}

-- What the worker's own tokens and source names are.
pub record IsWellFormed (token source_instance : String) : Type 0 where
  pub length_64 : text_length token ≡ 64
  pub ascii_token : is_ascii token ≡ true
  pub ascii_source : is_ascii source_instance ≡ true

find_entry-without :
    (key other : String) (entries : List Entry)
    → find_entry other (without key entries)
      ≡ (if key == other then none else find_entry other entries)
unfolding find_entry without
find_entry-without key other [] = ground arith
find_entry-without key other (e ∷ entries) = ground (
  arith,
  find_entry-without key other entries,
  eq_iff e.key key,
  eq_iff e.key other,
  eq_iff key other,
)

module _ (sha256 : String → String) where
  -- The token that a successful `issue` hands out, of 64 ASCII characters and for a source with an
  -- ASCII name, `consume` accepts for the same source before the time is over, and returns the very
  -- claims.
  pub consume-issue :
      (ttl maximum : ℕ) (token issued : String) (now later : ℕ) (claims : ConfirmationClaims)
      (entries after : List Entry)
      → issue sha256 ttl maximum token now claims entries ≡ (ok issued, after)
      → IsWellFormed token claims.source_instance
      → later < now + ttl
      → (issued ≡ token)
        × ((consume sha256 issued claims.source_instance later after).0 ≡ ok claims)
  unfolding issue consume check_entry find_entry
  consume-issue ttl maximum token issued now later claims entries after h w t =
      ground (arith, ==_refl (sha256 token), ==_refl claims.source_instance)

  -- Whatever the first attempt with a token of 64 ASCII characters returned and whichever source it
  -- named, a second one with the same token finds nothing.
  pub consume-consume :
      (token first second : String) (now later : ℕ) (entries : List Entry)
      → text_length token ≡ 64
      → is_ascii token ≡ true
      → (consume sha256 token second later (consume sha256 token first now entries).1).0
        ≡ err invalid
  unfolding consume check_entry
  consume-consume token first second now later entries l a =
      ground
        (arith, find_entry-without (sha256 token) (sha256 token) entries, ==_refl (sha256 token))

  -- A token whose hash differs is as good after the attempt as before it.
  consume-other :
      (token other source source' : String) (now later : ℕ) (entries : List Entry)
      → sha256 token ≢ sha256 other
      → (consume sha256 other source' later (consume sha256 token source now entries).1).0
        ≡ (consume sha256 other source' later entries).0
  unfolding consume
  consume-other token other source source' now later entries ne = ground (
    arith,
    find_entry-without (sha256 token) (sha256 other) entries,
    eq_iff (sha256 token) (sha256 other),
  )

  -- The claims that are accepted were stored under the token's hash, have not expired and name the
  -- source that is asked for.
  pub consume-eq-ok :
      (token source : String) (now : ℕ) (entries : List Entry) (claims : ConfirmationClaims)
      → (consume sha256 token source now entries).0 ≡ ok claims
      → (e : Entry) × (find_entry (sha256 token) entries ≡ some e)
        × (e.claims ≡ claims)
        × (now < e.expires)
        × (claims.source_instance ≡ source)
  unfolding consume check_entry
  consume-eq-ok token source now entries claims h =
      elim (Option-cases (find_entry (sha256 token) entries)) [
        | inl e ↦ absurd (ground arith)
        | inr (x, e) ↦ (
          x,
          e,
          ground arith,
          ground arith,
          ground (arith, eq_iff x.claims.source_instance source),
        )
      ]

  -- Issuing keeps the store within its maximum of capabilities.
  pub length-issue :
      (ttl maximum : ℕ) (token : String) (now : ℕ) (claims : ConfirmationClaims)
      (entries : List Entry)
      → length entries ≤ maximum
      → length (issue sha256 ttl maximum token now claims entries).1 ≤ maximum
  unfolding issue without
  length-issue ttl maximum token now claims entries h = ground (
    arith,
    length-keep-le (λ (e : Entry). ltb now e.expires) entries,
    length-keep-le (λ (e : Entry). not (e.key == sha256 token))
        (keep (λ (e : Entry). ltb now e.expires) entries),
  )
