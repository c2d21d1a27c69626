-- ===== src/Prelude/Members.antt =====
-- The elements of a list, as a sum that can be taken apart.
use mathlib.Core.Path.{◌≡◌, refl, sym, subst}
use mathlib.Core.Logic.{◌⊎◌, inl, inr}
use mathlib.Core.Bool.{Bool, true}
use mathlib.Core.List.{List, [], ◌∷◌}
use native.Mathlib.Omega.{arith}
use infra_sync.Prelude.Tests.{Bool-cases}
use infra_sync.Prelude.Lists.{keep, any, All}

module _ {A : Type 0} where
  abbrev pub IsAmong : A → List A → Type 0
  IsAmong a [] = ⊥
  IsAmong a (x ∷ xs) = (a ≡ x) ⊎ IsAmong a xs

  pub All-IsAmong {κ} : (P : A → Type κ) (a : A) (xs : List A) → All P xs → IsAmong a xs → P a
  All-IsAmong P a [] h m = absurd m
  All-IsAmong P a (x ∷ xs) h (inl e) = subst P (sym e) h.0
  All-IsAmong P a (x ∷ xs) h (inr m) = All-IsAmong P a xs h.1 m

  pub All_of {κ} : (P : A → Type κ) (xs : List A) → ((a : A) → IsAmong a xs → P a) → All P xs
  All_of P [] f = tt
  All_of P (x ∷ xs) f = (f x (inl refl), All_of P xs (λ a m. f a (inr m)))

  pub IsAmong-keep :
      (p : A → Bool) (a : A) (xs : List A) → IsAmong a (keep p xs) → IsAmong a xs × (p a ≡ true)
  IsAmong-keep p a [] m = absurd m
  IsAmong-keep p a (x ∷ xs) m = elim (Bool-cases (p x)) [
    | inl e ↦ kept e (IsAmong-keep p a xs) (rw e at m)
    | inr e ↦ let (found, h) = IsAmong-keep p a xs (rw e at m) in (inr found, h)
  ]
    where
      kept :
          p x ≡ true
          → (IsAmong a (keep p xs) → IsAmong a xs × (p a ≡ true))
          → (a ≡ x) ⊎ IsAmong a (keep p xs)
          → IsAmong a (x ∷ xs) × (p a ≡ true)
      kept e ih (inl same) = (inl same, subst (λ y. p y ≡ true) (sym same) e)
      kept e ih (inr later) = let (found, h) = ih later in (inr found, h)

  pub any-IsAmong :
      (p : A → Bool) (xs : List A) → any p xs ≡ true → (a : A) × IsAmong a xs × (p a ≡ true)
  any-IsAmong p [] h = absurd (cc h)
  any-IsAmong p (x ∷ xs) h = elim (Bool-cases (p x)) [
    | inl e ↦ (x, inl refl, e)
    | inr e ↦ let (a, found, k) = any-IsAmong p xs (rw e at h) in (a, inr found, k)
  ]

  pub IsAmong-any :
      (p : A → Bool) (a : A) (xs : List A) → IsAmong a xs → p a ≡ true → any p xs ≡ true
  IsAmong-any p a [] m h = absurd m
  IsAmong-any p a (x ∷ xs) (inl e) h = rw (subst (λ y. p y ≡ true) e h) refl
  IsAmong-any p a (x ∷ xs) (inr m) h = ground (arith, IsAmong-any p a xs m h)

  pub keep-IsAmong :
      (p : A → Bool) (a : A) (xs : List A) → IsAmong a xs → p a ≡ true → IsAmong a (keep p xs)
  keep-IsAmong p a [] m h = absurd m
  keep-IsAmong p a (x ∷ xs) (inl e) h = rw (subst (λ y. p y ≡ true) e h) (inl e)
  keep-IsAmong p a (x ∷ xs) (inr m) h = elim (Bool-cases (p x)) [
    | inl e ↦ rw e (inr (keep-IsAmong p a xs m h))
    | inr e ↦ rw e (keep-IsAmong p a xs m h)
  ]
