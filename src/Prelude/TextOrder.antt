-- ===== src/Prelude/TextOrder.antt =====
-- The order of texts is total and transitive.
use Prim.Native.String.{String, [], ◌∷◌}
use Prim.Native.String.compare
use mathlib.Core.Bool.{true, false}
use mathlib.Core.Path.{◌≡◌, refl}
use native.Mathlib.Omega.{arith}
use infra_sync.Prelude.Sorting.{text_le}

pub text_le_total : (s t : String) → text_le s t ≡ false → text_le t s ≡ true
text_le_total [] [] h = refl
text_le_total [] (d ∷ t) h = ground (arith, compare.nil-cons d t)
text_le_total (c ∷ s) [] h = ground (arith, compare.nil-cons c s)
text_le_total (c ∷ s) (d ∷ t) h =
    ground (arith, compare.cons-cons c d s t, compare.cons-cons d c t s, text_le_total s t)

pub text_le_trans : (s t u : String) → text_le s t ≡ true → text_le t u ≡ true → text_le s u ≡ true
text_le_trans [] t [] h k = refl
text_le_trans [] t (e ∷ u) h k = ground (arith, compare.nil-cons e u)
text_le_trans (c ∷ s) [] u h k = ground (arith, compare.cons-nil c s)
text_le_trans (c ∷ s) (d ∷ t) [] h k = ground (arith, compare.cons-nil d t)
text_le_trans (c ∷ s) (d ∷ t) (e ∷ u) h k = ground (
  arith,
  compare.cons-cons c d s t,
  compare.cons-cons d e t u,
  compare.cons-cons c e s u,
  text_le_trans s t u,
)
