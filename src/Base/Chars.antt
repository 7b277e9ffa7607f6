-- ===== src/Base/Chars.antt =====
-- Texts as lists of character codes.
use Prim.Native.Nat.{ℕ, zero, suc}
use Prim.Native.Char.{code}
use Prim.Native.String.{String}
use mathlib.Core.List.{List, [], ◌∷◌, ◌++◌}
use mathlib.Core.Path.{◌≡◌, refl, ap, ◌∙◌}
use miscellaneous.Base.Lists.{length}

abbrev pub Text : Type 0
Text = List ℕ

-- The text of a literal.
abbrev pub text : String → Text
text String.[] = []
text (String.◌∷◌ c s) = code c ∷ text s

-- The byte of a string, 0 at its end.
abbrev pub char_at : Text → ℕ → ℕ
char_at [] i = 0
char_at (c ∷ t) zero = c
char_at (c ∷ t) (suc i) = char_at t i

-- The first bytes of a string.
abbrev pub first : ℕ → Text → Text
first zero t = []
first (suc n) t = first n t ++ (char_at t n ∷ [])

pub first-suc : (n c : ℕ) (t : Text) → first (suc n) (c ∷ t) ≡ c ∷ first n t
first-suc zero c t = refl
first-suc (suc n) c t = ap (λ x. x ++ (char_at t n ∷ [])) (first-suc n c t)

pub first_all : (t : Text) → first (length t) t ≡ t
first_all [] = refl
first_all (c ∷ t) = first-suc (length t) c t ∙ ap (λ x. c ∷ x) (first_all t)
