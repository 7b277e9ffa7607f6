-- ===== src/Base/Run.antt =====
-- How a call ends: with a value, in undefined behaviour of the source language (a read out of
-- bounds, an overflow of a signed number, ...), or because the model's fuel is spent.
use miscellaneous.Base.Tests.{if◌then◌else◌}
use mathlib.Core.Path.{◌≡◌, refl}
use mathlib.Core.Bool.{Bool, true, false}
use mathlib.Core.Option.{Option, none, some}

pub data Run {ℓ} (A : Type ℓ) : Type ℓ where
  ok : A → Run A
  fault out_of_fuel : Run A

infixl 5 ◌>>=◌ ◌>>◌
abbrev pub ◌>>=◌ {ℓ κ} : {A : Type ℓ} {B : Type κ} → Run A → (A → Run B) → Run B
ok a >>= f = f a
fault >>= f = fault
out_of_fuel >>= f = out_of_fuel

abbrev pub ◌>>◌ {ℓ} : {B : Type ℓ} → Run (Unit {0}) → Run B → Run B
m >> k = m >>= λ _. k

-- A check that the source language leaves to the programmer.
abbrev pub require : Bool → Run (Unit {0})
require true = ok tt
require false = fault

abbrev pub of_option {ℓ} : {A : Type ℓ} → Option A → Run A
of_option (some a) = ok a
of_option none = fault

-- The run ends with a value that satisfies `P`.
pub data Yields {ℓ κ} {A : Type ℓ} (P : A → Type κ) : Run A → Type (ℓ ⊔ κ) where
  yields : {a : A} → P a → Yields P (ok a)

module _ {ℓ κ} {A : Type ℓ} {P : A → Type κ} where
  pub Yields-bind {ℓ' κ'} :
      {B : Type ℓ'} {Q : B → Type κ'} {m : Run A} {f : A → Run B}
      → Yields P m
      → ((a : A) → P a → Yields Q (f a))
      → Yields Q (m >>= f)
  Yields-bind (yields h) k = k _ h

  pub Yields-weaken {κ'} :
      {Q : A → Type κ'} {m : Run A} → ((a : A) → P a → Q a) → Yields P m → Yields Q m
  Yields-weaken k (yields h) = yields (k _ h)

  pub Yields-test :
      {m n : Run A} (b : Bool)
      → (b ≡ true → Yields P m)
      → (b ≡ false → Yields P n)
      → Yields P (if b then m else n)
  Yields-test true p q = p refl
  Yields-test false p q = q refl

  pub Yields-value : {m : Run A} → Yields P m → (a : A) × (m ≡ ok a) × P a
  Yields-value (yields h) = (_, refl, h)

  pub Yields-ok : {a : A} → Yields P (ok a) → P a
  Yields-ok (yields h) = h

module _ {ℓ κ} {A : Type ℓ} {B : Type κ} where
  pub bind_congr : (m : Run A) {f g : A → Run B} → ((a : A) → f a ≡ g a) → (m >>= f) ≡ (m >>= g)
  bind_congr (ok a) h = h a
  bind_congr fault h = refl
  bind_congr out_of_fuel h = refl

  pub bind_assoc {μ} :
      {C : Type μ} (m : Run A) (f : A → Run B) (g : B → Run C)
      → (m >>= f >>= g) ≡ (m >>= λ a. f a >>= g)
  bind_assoc (ok a) f g = refl
  bind_assoc fault f g = refl
  bind_assoc out_of_fuel f g = refl

pub bind_ok {ℓ} : {A : Type ℓ} (m : Run A) → (m >>= ok) ≡ m
bind_ok (ok a) = refl
bind_ok fault = refl
bind_ok out_of_fuel = refl
