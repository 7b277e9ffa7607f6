-- ===== src/Postfix/Calculate.antt =====
-- struct_and_algo/reverse_polish_notation.cpp: `expCalculate` of a postorder is the value of the tree.
use miscellaneous.Base.{Text, ℕ, ◌≡◌, refl, sym, ◌∙◌, List, [], ◌∷◌, ◌++◌, true}
use miscellaneous.Base.Run.{ok, ◌>>=◌, bind_congr, bind_assoc, bind_ok}
use miscellaneous.Base.Int.{ℤ}
use miscellaneous.Postfix.{
  is_operator, arithmetic, pop_two_numbers, calculate_char, calculate, get_postfix, exp_calculate,
}
use miscellaneous.Postfix.Grammar.{Expr, Spells, Spells-IsProper, postorder, eval, IsProper}
use miscellaneous.Postfix.Convert.{get_postfix-Spells}

calculate-append :
    (s t : Text) (st : List ℤ) → calculate (s ++ t) st ≡ (calculate s st >>= calculate t)
unfolding calculate
calculate-append [] t st = refl
calculate-append (c ∷ s) t st =
    bind_congr (calculate_char c st) (calculate-append s t)
    ∙ sym (bind_assoc (calculate_char c st) (calculate s) (calculate t))

calculate-operator :
    (op : ℕ) (v w : ℤ) (st : List ℤ)
    → is_operator op ≡ true
    → calculate (op ∷ []) (w ∷ v ∷ st) ≡ (arithmetic op v w >>= λ x. ok (x ∷ st))
unfolding calculate calculate_char pop_two_numbers
calculate-operator op v w st o = rw o (bind_assoc (arithmetic op v w) _ _)

-- The postorder of a tree pushes its value on any stack.
calculate-postorder :
    {e : Expr}
    → IsProper e
    → (st : List ℤ) → calculate (postorder e) st ≡ (eval e >>= λ v. ok (v ∷ st))
unfolding calculate calculate_char postorder eval
calculate-postorder (IsProper.operand h) st = rw h
calculate-postorder (IsProper.binary {op} {l} {r} o hl hr) st =
    rw (calculate-append, calculate-postorder hl st, bind_assoc, bind_assoc)
      (bind_congr (eval l) λ v.
        rw (calculate-append, calculate-postorder hr (v ∷ st), bind_assoc, bind_assoc)
          (bind_congr (eval r) λ w. calculate-operator op v w st o))

-- For every tree of operators and operands `expCalculate` of its postorder is the value of the
-- tree, and it faults exactly where the arithmetic does.
pub exp_calculate-postorder : {e : Expr} → IsProper e → exp_calculate (postorder e) ≡ eval e
unfolding exp_calculate
exp_calculate-postorder {e} h =
    rw (calculate-postorder h []) (bind_assoc (eval e) _ _ ∙ bind_ok (eval e))

-- The text of an expression, through both functions.
pub exp_calculate-get_postfix :
    {e : Expr} {s : Text} → Spells 1 e s → (get_postfix s >>= exp_calculate) ≡ eval e
exp_calculate-get_postfix d =
    rw (get_postfix-Spells d) (exp_calculate-postorder (Spells-IsProper d))
