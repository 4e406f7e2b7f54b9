-- ===== src/Common/Errors.antt =====
-- Results of fallible code: a value, or an error of the component's own type.
use mathlib.Core.Path.{◌≡◌, refl}
use mathlib.Core.Logic.{◌⊎◌, inl, inr}

pub data Result {ℓ κ} (E : Type ℓ) (A : Type κ) : Type (ℓ ⊔ κ) where
  ok : A → Result E A
  err : E → Result E A

module _ {ℓ κ μ} {E : Type ℓ} {A : Type κ} {B : Type μ} where
  infixl 5 ◌>>=◌
  abbrev pub ◌>>=◌ : Result E A → (A → Result E B) → Result E B
  ok value >>= next = next value
  err why >>= next = err why

  -- A chain that succeeds went through a value of its first step.
  pub >>=-eq-ok :
      (step : Result E A) (next : A → Result E B) {out : B}
      → step >>= next ≡ ok out
      → (value : A) × (step ≡ ok value) × (next value ≡ ok out)
  >>=-eq-ok (err why) next done = cc
  >>=-eq-ok (ok value) next done = (value, refl, done)

module _ {ℓ κ} {E : Type ℓ} {A : Type κ} where
  -- How a step came out, with the equation that says so.
  pub outcome :
      (step : Result E A) → ((value : A) × (step ≡ ok value)) ⊎ ((why : E) × (step ≡ err why))
  outcome (ok value) = inl (value, refl)
  outcome (err why) = inr (why, refl)
