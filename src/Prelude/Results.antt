-- ===== src/Prelude/Results.antt =====
-- Exceptions as values.
use mathlib.Core.Path.{◌≡◌, refl}
use mathlib.Core.Logic.{◌⊎◌, inl, inr}
use mathlib.Core.Bool.{Bool, true, false}

pub data Result {ℓ κ} (E : Type ℓ) (A : Type κ) : Type (ℓ ⊔ κ) where
  ok : A → Result E A
  err : E → Result E A

-- `if not test: raise e`
abbrev pub require {ℓ} : {E : Type ℓ} → (test : Bool) → (error : E) → Result E (Unit {0})
require false error = err error
require true error = ok tt

-- An exception skips what follows it.
infixl 5 ◌>>=◌
abbrev pub ◌>>=◌ {ℓ κ μ} :
    {E : Type ℓ} {A : Type κ} {B : Type μ}
    → (attempt : Result E A) → (next : A → Result E B) → Result E B
err error >>= next = err error
ok value >>= next = next value

infixl 5 ◌>>◌
abbrev pub ◌>>◌ {ℓ μ} :
    {E : Type ℓ} {B : Type μ} → (attempt : Result E (Unit {0})) → Result E B → Result E B
attempt >> next = attempt >>= λ done. next

pub Result-cases {ℓ κ} :
    {E : Type ℓ} {A : Type κ} (r : Result E A) → ((a : A) × (r ≡ ok a)) ⊎ ((e : E) × (r ≡ err e))
Result-cases (ok a) = inl (a, refl)
Result-cases (err e) = inr (e, refl)

pub ok_eq {ℓ κ} : {E : Type ℓ} {A : Type κ} {a b : A} → ◌≡◌ {A = Result E A} (ok a) (ok b) → a ≡ b
ok_eq h = cc h

-- What an attempt returned, and what followed it, where the whole returned.
pub >>=-eq-ok {ℓ κ μ} :
    {E : Type ℓ} {A : Type κ} {B : Type μ} (attempt : Result E A) (next : A → Result E B)
    {result : B}
    → (attempt >>= next) ≡ ok result
    → (value : A) × (attempt ≡ ok value) × (next value ≡ ok result)
>>=-eq-ok (err error) next returned = absurd (cc returned)
>>=-eq-ok (ok value) next returned = (value, refl, returned)
