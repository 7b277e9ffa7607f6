-- ===== src/Ipc/Signals/Tests.antt =====
-- ipcCode/sigs/shutdown.c in two orders of the turns.
use miscellaneous.Base.{ℕ, zero, suc, ◌≡◌, true, All, List, [], ◌∷◌, inl, inr, refl, arith}
use miscellaneous.Ipc.Signals.{
  Turn, of_child, of_parent, killed, run, forked, child_turn, parent_turn,
}
use miscellaneous.Ipc.Signals.Stages.{IsConsistent, run-IsConsistent}
use miscellaneous.Ipc.Signals.Rounds.{HasBoth, concat, Outcome, run-Outcome}

-- The signal comes before the child has set its handler.
abbrev early : List Turn
early = of_parent ∷ of_parent ∷ of_parent ∷ of_child ∷ of_parent ∷ of_parent ∷ []

early_killed : (run true early forked).child ≡ killed
unfolding run child_turn parent_turn
early_killed = refl

run-IsConsistent_example : IsConsistent (run true early forked)
run-IsConsistent_example = run-IsConsistent true early

abbrev round : List Turn
round = of_child ∷ of_parent ∷ of_child ∷ []

abbrev rounds : ℕ → List (List Turn)
rounds zero = []
rounds (suc n) = round ∷ rounds n

rounds-HasBoth : (n : ℕ) → All HasBoth (rounds n)
rounds-HasBoth zero = tt
rounds-HasBoth (suc n) = ((inl refl, inr (inl refl)), rounds-HasBoth n)

run-Outcome_example : Outcome true (run true (concat (rounds 11)) forked)
run-Outcome_example = run-Outcome true (rounds 11) (rounds-HasBoth 11) (omega arith)
