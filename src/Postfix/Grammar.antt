-- ===== src/Postfix/Grammar.antt =====
-- struct_and_algo/reverse_polish_notation.cpp: expressions and their texts, with the operators as the
-- code's own functions have them. Meaning.antt says what they are.
use miscellaneous.Base.{Text, ℕ, suc, ◌≤◌, ◌≡◌, [], ◌∷◌, ◌++◌, true, false, ◌==◌}
use miscellaneous.Base.Run.{Run, ok, ◌>>=◌}
use miscellaneous.Base.Int.{ℤ, sub_ℕ}
use miscellaneous.Postfix.{prior, is_operator, arithmetic}

pub data Expr : Type 0 where
  operand : ℕ → Expr
  binary : ℕ → Expr → Expr → Expr

-- A character that is an operand: no operator and no parenthesis.
pub record IsOperand (c : ℕ) : Type 0 where
  pub no_operator : is_operator c ≡ false
  pub no_open : (c == b'(') ≡ false
  pub no_close : (c == b')') ≡ false

-- `Spells p e s`: the text `s` stands for `e` where operators of priority `p` or more are expected.
-- Operators of one priority associate to the left, and parentheses may stand round any expression.
pub data Spells : ℕ → Expr → Text → Type 0 where
  atom : {p c : ℕ} → IsOperand c → Spells p (operand c) (c ∷ [])
  paren : {p : ℕ} {e : Expr} {s : Text} → Spells 1 e s → Spells p e (b'(' ∷ (s ++ b')' ∷ []))
  infix_op :
      {p op : ℕ} {l r : Expr} {s t : Text}
      → is_operator op ≡ true
      → p ≤ prior op
      → Spells (prior op) l s
      → Spells (suc (prior op)) r t
      → Spells p (binary op l r) (s ++ op ∷ t)

-- The operands and operators of `e` in postorder.
unfoldable pub postorder : Expr → Text
postorder (operand c) = c ∷ []
postorder (binary op l r) = postorder l ++ (postorder r ++ op ∷ [])

-- The value of `e`: both sides, then the operator on them.
unfoldable pub eval : Expr → Run ℤ
eval (operand c) = ok (sub_ℕ c b'0')
eval (binary op l r) = do v ← eval l; w ← eval r; arithmetic op v w

-- The operators and operands of a tree, as the grammar has them.
pub data IsProper : Expr → Type 0 where
  operand : {c : ℕ} → is_operator c ≡ false → IsProper (Expr.operand c)
  binary :
      {op : ℕ} {l r : Expr}
      → is_operator op ≡ true
      → IsProper l
      → IsProper r
      → IsProper (Expr.binary op l r)

pub Spells-IsProper : {p : ℕ} {e : Expr} {s : Text} → Spells p e s → IsProper e
Spells-IsProper (atom h) = IsProper.operand h.no_operator
Spells-IsProper (paren d) = Spells-IsProper d
Spells-IsProper (infix_op o h l r) = IsProper.binary o (Spells-IsProper l) (Spells-IsProper r)
