-- ===== src/Prelude/Sorting.antt =====
-- `sorted(xs, key=...)` over keys that are texts: stable, so equal keys keep their order.
use Prim.Native.String.{String, compare}
use text.Mathlib.Text.{is_le}
use mathlib.Core.Bool.{Bool}
use mathlib.Core.Path.{◌≡◌, refl}
use mathlib.Core.List.{List, [], ◌∷◌, Perm}
use mathlib.Core.List.Perm
use native.Mathlib.Omega.{arith}
use infra_sync.Prelude.Tests.{if◌then◌else◌, Bool-cases}
use infra_sync.Prelude.Lists.{length, any, All, keep}
use mathlib.Core.Logic.{inl, inr}

abbrev pub text_le : String → String → Bool
text_le s t = is_le (compare s t)

module _ {ℓ} {A : Type ℓ} (key : A → String) where
  unfoldable pub insert_by : A → List A → List A
  insert_by x [] = x ∷ []
  insert_by x (y ∷ ys) =
      let rest = y ∷ insert_by x ys in if text_le (key x) (key y) then x ∷ y ∷ ys else rest

  unfoldable pub sort_by : List A → List A
  unfolding insert_by
  sort_by [] = []
  sort_by (x ∷ xs) = insert_by x (sort_by xs)

  insert_by-perm : (x : A) (ys : List A) → Perm (insert_by x ys) (x ∷ ys)
  unfolding insert_by
  insert_by-perm x [] = Perm.refl _
  insert_by-perm x (y ∷ ys) = elim (Bool-cases (text_le (key x) (key y))) [
    | inl e ↦ rw e (Perm.refl _)
    | inr e ↦ rw e (Perm.trans (Perm.cons y (insert_by-perm x ys)) (Perm.swap x y ys))
  ]

  pub sort_by-perm : (xs : List A) → Perm (sort_by xs) xs
  unfolding sort_by
  sort_by-perm [] = Perm.refl _
  sort_by-perm (x ∷ xs) = Perm.trans (insert_by-perm x (sort_by xs)) (Perm.cons x (sort_by-perm xs))

  length-insert_by : (x : A) (ys : List A) → length (insert_by x ys) ≡ length (x ∷ ys)
  unfolding insert_by
  length-insert_by x [] = refl
  length-insert_by x (y ∷ ys) = ground (arith, length-insert_by x ys)

  pub length-sort_by : (xs : List A) → length (sort_by xs) ≡ length xs
  unfolding sort_by
  length-sort_by [] = refl
  length-sort_by (x ∷ xs) = ground (arith, length-insert_by x (sort_by xs), length-sort_by xs)

  any-insert_by : (p : A → Bool) (x : A) (ys : List A) → any p (insert_by x ys) ≡ any p (x ∷ ys)
  unfolding insert_by
  any-insert_by p x [] = refl
  any-insert_by p x (y ∷ ys) = ground (arith, any-insert_by p x ys)

  -- Sorting changes no test over the whole list.
  pub any-sort_by : (p : A → Bool) (xs : List A) → any p (sort_by xs) ≡ any p xs
  unfolding sort_by
  any-sort_by p [] = refl
  any-sort_by p (x ∷ xs) = ground (arith, any-insert_by p x (sort_by xs), any-sort_by p xs)

  pub All-insert_by {κ} :
      (P : A → Type κ) (x : A) (ys : List A) → P x → All P ys → All P (insert_by x ys)
  unfolding insert_by
  All-insert_by P x [] hx h = (hx, tt)
  All-insert_by P x (y ∷ ys) hx h = elim (Bool-cases (text_le (key x) (key y))) [
    | inl e ↦ rw e (hx, h)
    | inr e ↦ rw e (h.0, All-insert_by P x ys hx h.1)
  ]

  pub All-sort_by {κ} : (P : A → Type κ) (xs : List A) → All P xs → All P (sort_by xs)
  unfolding sort_by
  All-sort_by P [] h = tt
  All-sort_by P (x ∷ xs) h = All-insert_by P x (sort_by xs) h.0 (All-sort_by P xs h.1)

  keep-insert_by-perm :
      (p : A → Bool) (x : A) (ys : List A) → Perm (keep p (insert_by x ys)) (keep p (x ∷ ys))
  unfolding insert_by
  keep-insert_by-perm p x [] = Perm.refl _
  keep-insert_by-perm p x (y ∷ ys) = elim (Bool-cases (text_le (key x) (key y))) [
    | inl e ↦ rw e (Perm.refl _)
    | inr e ↦ rw e (elim (Bool-cases (p x)) [
      | inl hx ↦ elim (Bool-cases (p y)) [
        | inl hy ↦
            rw (hx, hy)
              (Perm.trans (Perm.cons y (rw hx at (keep-insert_by-perm p x ys)))
                (Perm.swap x y (keep p ys)))
        | inr hy ↦ rw (hx, hy) (rw hx at (keep-insert_by-perm p x ys))
      ]
      | inr hx ↦ elim (Bool-cases (p y)) [
        | inl hy ↦ rw (hx, hy) (Perm.cons y (rw hx at (keep-insert_by-perm p x ys)))
        | inr hy ↦ rw (hx, hy) (rw hx at (keep-insert_by-perm p x ys))
      ]
    ])
  ]

  keep_cons-perm :
      (p : A → Bool) (x : A) (xs ys : List A)
      → Perm (keep p xs) (keep p ys)
      → Perm (keep p (x ∷ xs)) (keep p (x ∷ ys))
  keep_cons-perm p x xs ys h = elim (Bool-cases (p x)) [
    | inl e ↦ rw e (Perm.cons x h)
    | inr e ↦ rw e h
  ]

  pub keep-sort_by-perm : (p : A → Bool) (xs : List A) → Perm (keep p (sort_by xs)) (keep p xs)
  unfolding sort_by
  keep-sort_by-perm p [] = Perm.refl _
  keep-sort_by-perm p (x ∷ xs) =
      Perm.trans (keep-insert_by-perm p x (sort_by xs))
        (keep_cons-perm p x (sort_by xs) xs (keep-sort_by-perm p xs))
