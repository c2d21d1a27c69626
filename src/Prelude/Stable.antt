-- ===== src/Prelude/Stable.antt =====
-- Sorting is stable: what is sorted already stays as it is, also as a part of a longer list, and
-- what is taken out of a sorted list may as well be taken out before.
use Prim.Native.String.{String}
use mathlib.Core.Bool.{Bool, true, false}
use mathlib.Core.Path.{◌≡◌, refl, ap, ◌∙◌, sym}
use mathlib.Core.Logic.{inl, inr}
use mathlib.Core.List.{List, [], ◌∷◌, ◌++◌}
use native.Mathlib.Omega.{arith}
use infra_sync.Prelude.Tests.{if◌then◌else◌, Bool-cases}
use infra_sync.Prelude.Lists.{All, All-map_of, All-keep, keep}
use infra_sync.Prelude.Sorting.{text_le, insert_by, sort_by, All-insert_by}
use infra_sync.Prelude.TextOrder.{text_le_total, text_le_trans}

module _ {ℓ} {A : Type ℓ} (key : A → String) where
  -- Two insertions may change places, unless they would tie in the wrong order.
  insert_by-insert_by :
      (x y : A) (zs : List A)
      → text_le (key y) (key x) ≡ false
      → insert_by key y (insert_by key x zs) ≡ insert_by key x (insert_by key y zs)
  unfolding insert_by
  insert_by-insert_by x y [] h = ground (arith, text_le_total (key y) (key x))
  insert_by-insert_by x y (z ∷ zs) h = ground (
    arith,
    insert_by-insert_by x y zs h,
    text_le_total (key y) (key x),
    text_le_trans (key x) (key y) (key z),
    text_le_trans (key y) (key z) (key x),
  )

  insert_all : List A → List A → List A
  insert_all [] zs = zs
  insert_all (x ∷ xs) zs = insert_by key x (insert_all xs zs)

  insert_all-insert_by :
      (x : A) (xs zs : List A)
      → insert_all (insert_by key x xs) zs ≡ insert_by key x (insert_all xs zs)
  unfolding insert_by insert_all
  insert_all-insert_by x [] zs = refl
  insert_all-insert_by x (y ∷ ys) zs = elim (Bool-cases (text_le (key x) (key y))) [
    | inl e ↦ rw e refl
    | inr e ↦
        rw (e, insert_all-insert_by x ys zs) (sym (insert_by-insert_by y x (insert_all ys zs) e))
  ]

  sort_by-append : (xs ys : List A) → sort_by key (xs ++ ys) ≡ insert_all xs (sort_by key ys)
  unfolding sort_by insert_all
  sort_by-append [] ys = refl
  sort_by-append (x ∷ xs) ys = ap (insert_by key x) (sort_by-append xs ys)

  insert_all-sort_by : (xs zs : List A) → insert_all (sort_by key xs) zs ≡ insert_all xs zs
  unfolding sort_by insert_all
  insert_all-sort_by [] zs = refl
  insert_all-sort_by (x ∷ xs) zs =
      insert_all-insert_by x (sort_by key xs) zs ∙ ap (insert_by key x) (insert_all-sort_by xs zs)

  -- Sorting a part first changes nothing.
  pub sort_by-sort_by-append :
      (xs ys : List A) → sort_by key (sort_by key xs ++ ys) ≡ sort_by key (xs ++ ys)
  sort_by-sort_by-append xs ys =
      sort_by-append (sort_by key xs) ys
      ∙ insert_all-sort_by xs (sort_by key ys)
      ∙ sym (sort_by-append xs ys)

  abbrev IsBelow : A → A → Type 0
  IsBelow x y = text_le (key x) (key y) ≡ true

  abbrev IsSorted : List A → Type ℓ
  IsSorted [] = Unit
  IsSorted (x ∷ xs) = All (IsBelow x) xs × IsSorted xs

  insert_by-front : (x : A) (ys : List A) → All (IsBelow x) ys → insert_by key x ys ≡ x ∷ ys
  unfolding insert_by
  insert_by-front x [] h = refl
  insert_by-front x (y ∷ ys) h = rw h.0 refl

  All-IsBelow : (x y : A) (zs : List A) → IsBelow x y → All (IsBelow y) zs → All (IsBelow x) zs
  All-IsBelow x y zs h below =
      All-map_of (IsBelow y) (IsBelow x) zs (λ z k. text_le_trans (key x) (key y) (key z) h k) below

  insert_by-IsSorted : (x : A) (ys : List A) → IsSorted ys → IsSorted (insert_by key x ys)
  unfolding insert_by
  insert_by-IsSorted x [] h = (tt, tt)
  insert_by-IsSorted x (y ∷ ys) h = elim (Bool-cases (text_le (key x) (key y))) [
    | inl e ↦ rw e ((e, All-IsBelow x y ys e h.0), h)
    | inr e ↦ rw e (
      All-insert_by key (IsBelow y) x ys (text_le_total (key x) (key y) e) h.0,
      insert_by-IsSorted x ys h.1,
    )
  ]

  sort_by-IsSorted : (xs : List A) → IsSorted (sort_by key xs)
  unfolding sort_by
  sort_by-IsSorted [] = tt
  sort_by-IsSorted (x ∷ xs) = insert_by-IsSorted x (sort_by key xs) (sort_by-IsSorted xs)

  keep-insert_by :
      (p : A → Bool) (x : A) (ys : List A)
      → IsSorted ys
      → keep p (insert_by key x ys) ≡ (if p x then insert_by key x (keep p ys) else keep p ys)
  unfolding insert_by
  keep-insert_by p x [] h = refl
  keep-insert_by p x (y ∷ ys) h = elim (Bool-cases (text_le (key x) (key y))) [
    | inl e ↦ ground (
      arith,
      insert_by-front x (keep p ys) (All-keep (IsBelow x) p ys (All-IsBelow x y ys e h.0)),
    )
    | inr e ↦ ground (arith, keep-insert_by p x ys h.1)
  ]

  pub keep-sort_by :
      (p : A → Bool) (xs : List A) → keep p (sort_by key xs) ≡ sort_by key (keep p xs)
  unfolding sort_by
  keep-sort_by p [] = refl
  keep-sort_by p (x ∷ xs) =
      ground (arith, keep-insert_by p x (sort_by key xs) (sort_by-IsSorted xs), keep-sort_by p xs)
