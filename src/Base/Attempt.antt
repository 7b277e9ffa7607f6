-- ===== src/Base/Attempt.antt =====
-- Programs that write their calls of a library to a log, each with whether it succeeded, which may
-- depend on all that the log holds.
use miscellaneous.Base.Prog.{Prog}
use miscellaneous.Base.Run.{out_of_fuel, Yields}
use mathlib.Core.Bool.{Bool, true, false}
use mathlib.Core.List.{List, ◌∷◌}
use mathlib.Core.Path.{◌≡◌, refl}

pub data Event (C : Type 0) : Type 0 where
  event : C → Bool → Event C

-- The last call first.
abbrev pub Log : Type 0 → Type 0
Log C = List (Event C)

abbrev pub Env : Type 0 → Type 0
Env C = Log C → C → Bool

abbrev pub exhausted : {S A : Type 0} → Prog S A
exhausted s = out_of_fuel

module _ {C A : Type 0} where
  pub on_success : C → Prog (Log C) A → Prog (Log C) A → Bool → Prog (Log C) A
  on_success c fail rest false l = fail (event c false ∷ l)
  on_success c fail rest true l = rest (event c true ∷ l)

  pub on_pointer : C → (Bool → Prog (Log C) A) → Bool → Prog (Log C) A
  on_pointer c rest b l = rest b (event c b ∷ l)

module _ {C : Type 0} (env : Env C) {A : Type 0} where
  -- A call, what is done when it fails, and what else.
  unfoldable pub attempt : C → Prog (Log C) A → Prog (Log C) A → Prog (Log C) A
  unfolding on_success
  attempt c fail rest l = on_success c fail rest (env l c) l

  -- A call that gives a pointer, which may be null.
  unfoldable pub pointer : C → (Bool → Prog (Log C) A) → Prog (Log C) A
  unfolding on_pointer
  pointer c rest l = on_pointer c rest (env l c) l

  -- A call whose result is not looked at.
  abbrev pub ignore : C → Prog (Log C) A → Prog (Log C) A
  ignore c rest l = rest (event c (env l c) ∷ l)

  module _ {P : A × Log C → Type 0} where
    pub by_answer :
        (c : C) (fail rest : Prog (Log C) A) (l : Log C)
        → (env l c ≡ false → Yields P (fail (event c false ∷ l)))
        → (env l c ≡ true → Yields P (rest (event c true ∷ l)))
        → Yields P (attempt c fail rest l)
    unfolding attempt on_success
    by_answer c fail rest l h g = by_result (env l c) refl
      where
        by_result : (b : Bool) → env l c ≡ b → Yields P (on_success c fail rest b l)
        by_result false eq = h eq
        by_result true eq = g eq

    pub by_attempt :
        (c : C) (fail rest : Prog (Log C) A) (l : Log C)
        → Yields P (fail (event c false ∷ l))
        → (env l c ≡ true → Yields P (rest (event c true ∷ l)))
        → Yields P (attempt c fail rest l)
    by_attempt c fail rest l h g = by_answer c fail rest l (λ _. h) g

    pub by_pointer :
        (c : C) (rest : Bool → Prog (Log C) A) (l : Log C)
        → env l c ≡ true
        → Yields P (rest true (event c true ∷ l))
        → Yields P (pointer c rest l)
    unfolding pointer on_pointer
    by_pointer c rest l eq h = by_result (env l c) eq
      where
        by_result : (b : Bool) → b ≡ true → Yields P (on_pointer c rest b l)
        by_result true eq' = h
        by_result false eq' = absurd (cc eq')
