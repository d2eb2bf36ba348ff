-- ===== src/Prelude/Errors.antt =====
-- Python exceptions as values: a call returns `ok`, or raises an error of type `E`.
use mathlib.Core.Path.{◌≡◌, refl}
use mathlib.Core.Logic.{◌⊎◌, inl, inr}
use mathlib.Core.Bool.{Bool, true, false}

pub data Result {ℓ} (E : Type 0) (A : Type ℓ) : Type ℓ where
  ok : A → Result E A
  err : E → Result E A

module _ {E : Type 0} where
  infixl 10 ◌>>=◌ ◌>>◌
  abbrev pub ◌>>=◌ {ℓ κ} : {A : Type ℓ} {B : Type κ} → Result E A → (A → Result E B) → Result E B
  ok a >>= f = f a
  err e >>= f = err e

  abbrev pub ◌>>◌ {ℓ κ} : {A : Type ℓ} {B : Type κ} → Result E A → Result E B → Result E B
  m >> k = m >>= λ _. k

  -- `if not b: raise e`
  abbrev pub guard : Bool → E → Result E (Unit {0})
  guard true e = ok tt
  guard false e = err e

  abbrev pub is_ok {ℓ} : {A : Type ℓ} → Result E A → Bool
  is_ok (ok a) = true
  is_ok (err e) = false

pub Result-cases {ℓ} :
    {E : Type 0} {A : Type ℓ} (r : Result E A) → ((e : E) × (r ≡ err e)) ⊎ ((a : A) × (r ≡ ok a))
Result-cases (ok a) = inr (a, refl)
Result-cases (err e) = inl (e, refl)

pub ok-injective {ℓ} :
    {E : Type 0} {A : Type ℓ} {a b : A} → ◌≡◌ {A = Result E A} (ok a) (ok b) → a ≡ b
ok-injective h = cc

-- A chain that returns: how it goes on, and what its first step gave.
pub bind_returns {ℓ κ} :
    {E : Type 0} {A : Type ℓ} {B : Type κ} {out : B} (next : A → Result E B) (first : Result E A)
    → ◌≡◌ {A = Result E B} (first >>= next) (ok out)
    → (given : A) × (next given ≡ ok out) × (first ≡ ok given)
bind_returns next (err raised) chain = cc
bind_returns next (ok given) chain = (given, chain, refl)
