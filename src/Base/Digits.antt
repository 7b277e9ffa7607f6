-- ===== src/Base/Digits.antt =====
-- Decimal digits in texts.
use Prim.Native.Nat.{ℕ, ◌+◌, ◌-◌, ◌*◌, ◌≤◌}
use mathlib.Core.Path.{◌≡◌, refl, ap}
use mathlib.Core.Bool.{Bool, true, ◌&&◌}
use mathlib.Core.List.{[], ◌∷◌}
use native.Mathlib.Omega.{arith}
use miscellaneous.Base.Tests.{leb, if◌then◌else◌}
use miscellaneous.Base.Lists.{All}
use miscellaneous.Base.Chars.{Text}

abbrev pub in_range : ℕ → ℕ → ℕ → Bool
in_range a b c = leb a c && leb c b

-- The digits at the start of a text.
abbrev pub digits : Text → Text
digits [] = []
digits (c ∷ s) = let rest = digits s in if in_range b'0' b'9' c then c ∷ rest else []

-- The number that digits stand for, after those that stand for `n`.
abbrev pub number : Text → ℕ → ℕ
number [] n = n
number (c ∷ s) n = number s (n * 10 + (c - b'0'))

abbrev pub IsDigit : ℕ → Type 0
IsDigit c = (b'0' ≤ c) × (c ≤ b'9')

pub digit-in_range : (c : ℕ) → IsDigit c → in_range b'0' b'9' c ≡ true
digit-in_range c h = ground (arith, h)

pub digits-All : (s : Text) → All IsDigit s → digits s ≡ s
digits-All [] h = refl
digits-All (c ∷ s) h = rw (digit-in_range c h.0) (ap (λ t. c ∷ t) (digits-All s h.1))
