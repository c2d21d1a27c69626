-- ===== src/RunHistory/Errors.antt =====
-- The closed outcomes and public error texts of netbox_sync/run_history.py.
use infra_sync.Prelude.{
  String, ◌≡◌, ◌≢◌, refl, Bool, true, false, ◌||◌, arith, ◌==◌, leb, if◌then◌else◌, text_length,
  Option, none, some, All, List, [], ◌∷◌,
}

pub data RunStatus : Type 0 where
  running succeeded failed_before_write partially_applied outcome_uncertain blocked locked failed :
      RunStatus

abbrev pub safe_error_messages : List (String × String)
safe_error_messages =
    ("APPLY_LOCKED", "Another synchronization is already running.")
    ∷ ("PLAN_BLOCKED", "The synchronization plan contains blocking conditions.")
    ∷ ("PLAN_STALE", "The synchronization plan is no longer current.")
    ∷ ("CONFIRMATION_EXPIRED", "The synchronization confirmation expired.")
    ∷ ("CONFIRMATION_INVALID", "The synchronization confirmation is invalid.")
    ∷ ("CONFIRMATION_SOURCE_MISMATCH", "The confirmation does not match this source.")
    ∷ ("FAILED_BEFORE_WRITE", "Synchronization failed before any changes were written.")
    ∷ ("PARTIALLY_APPLIED", "Synchronization stopped after some changes were written.")
    ∷ ("OUTCOME_UNCERTAIN", "The final NetBox state may be uncertain.")
    ∷ ("APPLY_FAILED", "Synchronization failed.")
    ∷ []

-- `key in d` and `d.get(key, default)`
has_key : String → List (String × String) → Bool
has_key k [] = false
has_key k ((j, v) ∷ d) = j == k || has_key k d

get_or : List (String × String) → String → String → String
get_or [] k default = default
get_or ((j, v) ∷ d) k default = if j == k then v else get_or d k default

-- `error_code in SAFE_ERROR_MESSAGES`
unfoldable pub is_safe_code : String → Bool
unfolding has_key
is_safe_code code = has_key code safe_error_messages

unfoldable pub terminal_status : String → RunStatus
terminal_status code =
    if code == "APPLY_LOCKED"
    then locked
    else if code == "PLAN_BLOCKED"
    then blocked
    else if code == "FAILED_BEFORE_WRITE"
    then failed_before_write
    else if code == "PARTIALLY_APPLIED"
    then partially_applied
    else if code == "OUTCOME_UNCERTAIN"
    then outcome_uncertain
    else failed

-- `none` stands for a code that is no text: `None`, or the number of a `SystemExit`.
unfoldable pub safe_error_code : Option String → String
safe_error_code none = "APPLY_FAILED"
safe_error_code (some code) = if is_safe_code code then code else "APPLY_FAILED"

unfoldable pub safe_error_message : String → String
unfolding get_or
safe_error_message code = get_or safe_error_messages code "Synchronization failed."

terminal_status-ne-running : (code : String) → terminal_status code ≢ running
unfolding terminal_status
terminal_status-ne-running code h = ground arith

default_is_safe : is_safe_code "APPLY_FAILED" ≡ true
unfolding is_safe_code
default_is_safe = refl

kept-is_safe :
    (code : String) (b : Bool)
    → is_safe_code code ≡ b
    → is_safe_code (if b then code else "APPLY_FAILED") ≡ true
kept-is_safe code true h = h
kept-is_safe code false h = default_is_safe

-- Whatever code an exception carries, what is stored is one of the public codes.
pub safe_error_code-is_safe : (code : Option String) → is_safe_code (safe_error_code code) ≡ true
unfolding safe_error_code
safe_error_code-is_safe none = default_is_safe
safe_error_code-is_safe (some code) = kept-is_safe code (is_safe_code code) refl

abbrev Fits : String → Type 0
Fits s = leb (text_length s) 256 ≡ true

get_or-Fits :
    (d : List (String × String)) (k default : String)
    → All (λ (e : String × String). Fits e.1) d
    → Fits default
    → Fits (get_or d k default)
unfolding get_or
get_or-Fits [] k default h hd = hd
get_or-Fits ((j, v) ∷ d) k default h hd = ground (arith, get_or-Fits d k default h.1 hd)

pub text_length-safe_error_message :
    (code : String) → leb (text_length (safe_error_message code)) 256 ≡ true
unfolding safe_error_message text_length
text_length-safe_error_message code =
    get_or-Fits safe_error_messages code "Synchronization failed." messages refl
  where
    messages : All (λ (e : String × String). Fits e.1) safe_error_messages
    messages = (refl, (refl, (refl, (refl, (refl, (refl, (refl, (refl, (refl, (refl, tt))))))))))
