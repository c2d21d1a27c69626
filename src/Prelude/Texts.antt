-- ===== src/Prelude/Texts.antt =====
-- What the program uses of Python's `str`.
use Prim.Native.Nat.{ℕ}
use Prim.Native.Char.{code}
use Prim.Native.String.{String, [], ◌∷◌, slice, len}
use mathlib.Core.Bool.{Bool, true, false, ◌&&◌, ◌||◌}
use mathlib.Core.Path.{◌≡◌}
use mathlib.Core.List as CoreList
use text.Mathlib.Text.{◌==◌ as text_eq, starts_with}
use text.Mathlib.TextPositions.{eq_refl}
use infra_sync.Prelude.Lists.{length}
use infra_sync.Prelude.Tests.{leb, eqb, if◌then◌else◌}

infix 50 ◌==◌
abbrev pub ◌==◌ : String → String → Bool
s == t = text_eq s t

pub ==_refl : (s : String) → (s == s) ≡ true
==_refl s = eq_refl s

-- `str.isspace` of one character: what `strip` removes.
unfoldable pub is_space : ℕ → Bool
is_space c =
    leb 9 c && leb c 13
    || leb 28 c && leb c 32
    || eqb c 0x85
    || eqb c 0xa0
    || eqb c 0x1680
    || leb 0x2000 c && leb c 0x200a
    || eqb c 0x2028
    || eqb c 0x2029
    || eqb c 0x202f
    || eqb c 0x205f
    || eqb c 0x3000

-- `not s.strip()`
unfoldable pub is_blank : String → Bool
unfolding is_space
is_blank [] = true
is_blank (c ∷ s) = is_space (code c) && is_blank s

-- `s[len(prefix):] if s.startswith(prefix) else s`
unfoldable pub strip_prefix : String → String → String
strip_prefix prefix s = if starts_with s prefix then slice s (len prefix) (len s) else s

-- `x in names`
abbrev pub mem_text : String → CoreList.List String → Bool
mem_text s CoreList.[] = false
mem_text s (CoreList.◌∷◌ t ts) = t == s || mem_text s ts

-- The code points of a text.
abbrev pub codes : String → CoreList.List ℕ
codes [] = CoreList.[]
codes (c ∷ s) = CoreList.◌∷◌ (code c) (codes s)

-- `len(s)`
unfoldable pub text_length : String → ℕ
text_length s = length (codes s)

-- every character passes
abbrev pub all_codes : (ℕ → Bool) → CoreList.List ℕ → Bool
all_codes p CoreList.[] = true
all_codes p (CoreList.◌∷◌ c cs) = p c && all_codes p cs

unfoldable pub is_lower_alnum : ℕ → Bool
is_lower_alnum c = leb b'a' c && leb c b'z' || leb b'0' c && leb c b'9'

-- `[a-z0-9._-]`
unfoldable pub is_instance_char : ℕ → Bool
unfolding is_lower_alnum
is_instance_char c = is_lower_alnum c || eqb c b'.' || eqb c b'_' || eqb c b'-'

-- `[a-f0-9]`
unfoldable pub is_hex : ℕ → Bool
is_hex c = leb b'a' c && leb c b'f' || leb b'0' c && leb c b'9'

-- `^[a-z0-9][a-z0-9._-]{1,62}$`, matched whole
unfoldable pub is_source_instance : String → Bool
unfolding is_lower_alnum is_instance_char
is_source_instance [] = false
is_source_instance (c ∷ s) =
    is_lower_alnum (code c)
    && all_codes is_instance_char (codes s)
    && leb 1 (length (codes s))
    && leb (length (codes s)) 62

-- `[a-f0-9]{64}`, matched whole
unfoldable pub is_digest : String → Bool
unfolding is_hex
is_digest s = all_codes is_hex (codes s) && eqb (length (codes s)) 64

-- `[a-z0-9_-]`
unfoldable pub is_type_char : ℕ → Bool
unfolding is_lower_alnum
is_type_char c = is_lower_alnum c || eqb c b'_' || eqb c b'-'

-- `^[a-z][a-z0-9_-]{1,31}$`, matched whole
unfoldable pub is_source_type : String → Bool
unfolding is_type_char
is_source_type [] = false
is_source_type (c ∷ s) =
    leb b'a' (code c)
    && leb (code c) b'z'
    && all_codes is_type_char (codes s)
    && leb 1 (length (codes s))
    && leb (length (codes s)) 31
