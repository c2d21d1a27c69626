-- ===== src/Confirmation.antt =====
-- netbox_sync/application/confirmation.py: single-use capabilities for one reviewed plan. SHA-256 is
-- the parameter `sha256`, the random token and the reading of the clock are arguments.
pub mod Laws
use infra_sync.Prelude.{
  ℕ, ◌+◌, String, Bool, true, false, not, ◌&&◌, Option, none, some, List, [], ◌∷◌, ◌==◌, ltb, leb,
  eqb, if◌then◌else◌, Result, ok, err, length, keep, text_length, codes, all_codes,
}

pub record ConfirmationClaims : Type 0 where
  pub source_instance : String
  pub source_id : String
  pub plan_digest : String
  pub planner_version : String
  pub source_fingerprint : String
  pub target_fingerprint : String

-- The codes of `ConfirmationError`, and the two exceptions of the standard library that pass
-- through: `encode('ascii')` and `compare_digest` refuse a text that is not ASCII.
pub data ConfirmationError : Type 0 where
  capacity_exceeded invalid expired source_mismatch : ConfirmationError
  unicode_encode_error type_error : ConfirmationError

pub record Entry : Type 0 where
  pub key : String
  pub claims : ConfirmationClaims
  pub expires : ℕ

unfoldable pub is_ascii : String → Bool
is_ascii s = all_codes (λ c. ltb c 128) (codes s)

unfoldable pub find_entry : String → List Entry → Option Entry
find_entry key [] = none
find_entry key (e ∷ entries) = if e.key == key then some e else find_entry key entries

-- `entries.pop(key, None)`
unfoldable pub without : String → List Entry → List Entry
without key entries = keep (λ (e : Entry). not (e.key == key)) entries

module _ (sha256 : String → String) where
  -- `issue`; the expired entries are dropped also where it raises.
  unfoldable pub issue :
      (ttl maximum : ℕ)
      → (token : String) → (now : ℕ) → ConfirmationClaims
      → List Entry
      → Result ConfirmationError String × List Entry
  unfolding without
  issue ttl maximum token now claims entries =
      let live = keep (λ (e : Entry). ltb now e.expires) entries in
      if leb maximum (length live) then (err capacity_exceeded, live) else (
        ok token,
        record { key = sha256 token; claims = claims; expires = now + ttl }
            ∷ without (sha256 token) live,
      )

  -- The checks on the entry that was taken out.
  unfoldable pub check_entry :
      String → ℕ → Option Entry → Result ConfirmationError ConfirmationClaims
  check_entry source_instance now none = err invalid
  check_entry source_instance now (some e) =
      if leb e.expires now
      then err expired
      else if not (is_ascii e.claims.source_instance && is_ascii source_instance)
      then err type_error
      else if not (e.claims.source_instance == source_instance)
      then err source_mismatch
      else ok e.claims

  -- `consume`; the entry is removed before anything is checked about it.
  unfoldable pub consume :
      (token source_instance : String)
      → (now : ℕ) → List Entry
      → Result ConfirmationError ConfirmationClaims × List Entry
  unfolding check_entry without
  consume token source_instance now entries =
      if not (eqb (text_length token) 64)
      then (err invalid, entries)
      else if not (is_ascii token)
      then (err unicode_encode_error, entries)
      else (
        check_entry source_instance now (find_entry (sha256 token) entries),
        without (sha256 token) entries,
      )
