-- ===== src/Base/Prog.antt =====
-- Programs that pass a state on, such as the log of the calls that they have made.
use miscellaneous.Base.Tests.{if◌then◌else◌}
use miscellaneous.Base.Run.{Run, ok, fault, out_of_fuel, Yields, yields}
use mathlib.Core.Bool.{Bool}

abbrev pub Prog : Type 0 → Type 0 → Type 0
Prog S A = S → Run (A × S)

abbrev pub follow : {S A B : Type 0} → Run (A × S) → (A → Prog S B) → Run (B × S)
follow (ok (a, s)) f = f a s
follow fault f = fault
follow out_of_fuel f = out_of_fuel

infixl 5 ◌>>=◌ ◌>>◌
abbrev pub ◌>>=◌ : {S A B : Type 0} → Prog S A → (A → Prog S B) → Prog S B
(m >>= f) s = follow (m s) f

abbrev pub ◌>>◌ : {S B : Type 0} → Prog S (Unit {0}) → Prog S B → Prog S B
m >> k = m >>= λ _. k

abbrev pub return : {S A : Type 0} → A → Prog S A
return a s = ok (a, s)

-- `if (!b) return r;` before the rest of a function.
abbrev pub or_return : {S A : Type 0} → Bool → A → Prog S A → Prog S A
or_return b r rest s = if b then rest s else ok (r, s)

-- The pointer is dereferenced in the rest of the function.
abbrev pub deref : {S A : Type 0} → Bool → Prog S A → Prog S A
deref b rest s = if b then rest s else fault

-- `if (b) ...`, and the rest of the function.
abbrev pub when : {S A : Type 0} → Bool → Prog S (Unit {0}) → Prog S A → Prog S A
when b m rest s = if b then follow (m s) (λ _. rest) else rest s

pub Yields-follow :
    {S A B : Type 0} {P : A × S → Type 0} {Q : B × S → Type 0} {m : Run (A × S)} {f : A → Prog S B}
    → Yields P m
    → ((a : A) (s : S) → P (a, s) → Yields Q (f a s))
    → Yields Q (follow m f)
Yields-follow (yields h) k = k _ _ h
