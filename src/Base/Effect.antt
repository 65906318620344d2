-- ===== src/Base/Effect.antt =====
-- Code that changes a state and may panic. A panic keeps the changes made before it.
use mathlib.Core.Path.{◌≡◌, refl}
use mathlib.Core.Logic.{◌⊎◌, inl, inr}
use mathlib.Core.Option.{Option, none, some}
use mathlib.Core.Bool.{Bool, true, false}

pub data Outcome {ℓ} (A : Type ℓ) : Type ℓ where
  returned : A → Outcome A
  panicked : Outcome A

pub Outcome-cases {ℓ} : {A : Type ℓ} (o : Outcome A) → ((a : A) × (o ≡ returned a)) ⊎ (o ≡ panicked)
Outcome-cases (returned a) = inl (a, refl)
Outcome-cases panicked = inr refl

abbrev pub Op {ℓ κ} : Type ℓ → Type κ → Type (ℓ ⊔ κ)
Op S A = S → Outcome A × S

module _ {ℓ κ} {S : Type ℓ} {A : Type κ} where
  abbrev pub pure : A → Op S A
  pure a s = (returned a, s)

  abbrev pub panic : Op S A
  panic s = (panicked, s)

  -- Reads the state.
  abbrev pub gets : (S → A) → Op S A
  gets f s = (returned (f s), s)

  -- `Option::expect`, and the bounds check of an index.
  abbrev pub expect : Option A → Op S A
  expect none = panic
  expect (some a) = pure a

-- `assert!`
abbrev pub assert {ℓ} : {S : Type ℓ} → Bool → Op S (Unit {0})
assert true s = (returned tt, s)
assert false s = (panicked, s)

abbrev pub modify {ℓ} : {S : Type ℓ} → (S → S) → Op S (Unit {0})
modify f s = (returned tt, f s)

module _ {ℓ κ μ} {S : Type ℓ} {A : Type κ} {B : Type μ} where
  abbrev pub and_then : Outcome A → S → (A → Op S B) → Outcome B × S
  and_then (returned a) s k = k a s
  and_then panicked s k = (panicked, s)

  infixl 5 ◌>>=◌
  abbrev pub ◌>>=◌ : Op S A → (A → Op S B) → Op S B
  ◌>>=◌ m k s = and_then (m s).0 (m s).1 k

infixl 5 ◌>>◌
abbrev pub ◌>>◌ {ℓ μ} : {S : Type ℓ} {B : Type μ} → Op S (Unit {0}) → Op S B → Op S B
m >> k = m >>= λ _. k
