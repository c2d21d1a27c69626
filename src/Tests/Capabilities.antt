-- ===== src/Tests/Capabilities.antt =====
-- Runs of the confirmation store and of the manual synchronization.
use Prim.Native.String.{◌++◌}
use infra_sync.Prelude.{
  ℕ, ◌+◌, ◌≤◌, ◌<◌, String, ◌≡◌, refl, sym, Bool, true, false, Option, none, some, List, [], ◌∷◌,
  arith, Result, ok, err, length, All, eq_iff,
}
use mathlib.Core.Path.{subst}
use infra_sync.Config.{SourceConfig}
use infra_sync.Confirmation.{
  ConfirmationClaims, ConfirmationError, invalid, Entry, find_entry, issue, consume,
}
use infra_sync.Confirmation.Laws.{consume-issue}
use infra_sync.ManualSync.{Plan, confirmation, returned, Service, State, apply}
use infra_sync.ManualSync.Laws.{Confirms, Guarded, apply-Guarded, apply-apply}
use infra_sync.Tests.Runs.{first_source}

abbrev pub hash : String → String
hash s = "h" ++ s

abbrev pub token : String
token = "0123456789abcdef0123456789abcdef0123456789abcdef0123456789abcdef"

abbrev pub claims : ConfirmationClaims
claims = record {
  source_instance = "pve";
  source_id = "a";
  plan_digest = "d1";
  planner_version = "1";
  source_fingerprint = "s1";
  target_fingerprint = "t1";
}

abbrev pub entry : Entry
entry = record { key = hash token; claims = claims; expires = 310 }

consume-issue_example : (token ≡ token) × ((consume hash token "pve" 20 (entry ∷ [])).0 ≡ ok claims)
unfolding issue infra_sync.Prelude.text_length infra_sync.Confirmation.is_ascii
consume-issue_example =
    consume-issue hash 300 100 token token 10 20 claims [] (entry ∷ []) refl
      (record { length_64 = refl; ascii_token = refl; ascii_source = refl }) (omega arith)

abbrev plan : Plan
plan = record {
  apply_allowed = true;
  digest = "d1";
  planner_version = "1";
  source_fingerprint = "s1";
  target_fingerprint = "t1";
}

-- A world that is the list of the digests that were executed.
abbrev service : Service (List String)
service = record {
  sha256 = hash;
  token_hex = λ w. (token, w);
  now = λ w. (20, w);
  load = λ i w. (ok (some first_source), w);
  build_plan = λ c w. (ok plan, w);
  execute = λ c p w. (returned, p.digest ∷ w);
}

abbrev confirmed : State (List String)
confirmed = record { entries = entry ∷ []; world = [] }

abbrev IsReviewed : List String → Type 0
IsReviewed w = All (λ d. d ≡ "d1") w

reviewed_digest :
    (claimed : ConfirmationClaims) (source : SourceConfig) (p : Plan) (e : Entry)
    → find_entry (hash token) (entry ∷ []) ≡ some e
    → e.claims ≡ claimed
    → Confirms service 300 100 claimed source p
    → p.digest ≡ "d1"
unfolding find_entry
reviewed_digest claimed source p e found same h =
    let stored : claims ≡ claimed = cc in
    subst (λ (c : ConfirmationClaims). p.digest ≡ c.plan_digest) (sym stored) h.digest

service-Guarded : Guarded service 300 100 IsReviewed "pve" token (entry ∷ [])
service-Guarded = record {
  clock = λ w p. p;
  loader = λ w p. p;
  planner = λ c w p. p;
  executor = λ claimed c p e u w found same named loaded enabled built h kept.
      (reviewed_digest claimed c p e found same h, kept);
}

apply-Guarded_example : IsReviewed (apply service 300 100 "pve" token confirmed).1.world
apply-Guarded_example =
    apply-Guarded service 300 100 IsReviewed "pve" token confirmed service-Guarded tt

apply-apply_example :
    (apply service 300 100 "lab" token (apply service 300 100 "pve" token confirmed).1).0
    ≡ err (confirmation invalid)
unfolding infra_sync.Prelude.text_length infra_sync.Confirmation.is_ascii
apply-apply_example = apply-apply service 300 100 token "pve" "lab" confirmed refl refl
