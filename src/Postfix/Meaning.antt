-- ===== src/Postfix/Meaning.antt =====
-- struct_and_algo/reverse_polish_notation.cpp: infix texts and their values, apart from the code.
use miscellaneous.Base.{
  Text, ℕ, suc, ◌≤◌, ◌≡◌, refl, ap, ◌∙◌, [], ◌∷◌, ◌++◌, false, true, ◌==◌, if◌then◌else◌,
  Bool-cases, inl, inr,
}
use mathlib.Core.Path.{subst}
use miscellaneous.Base.Run.{Run, ok, fault, ◌>>=◌, bind_congr}
use miscellaneous.Base.Int.{ℤ, pos, sub_ℕ, int, ◌+ℤ◌, ◌-ℤ◌, ◌*ℤ◌, ◌/ℤ◌, eqb_ℤ}
use miscellaneous.Postfix.{prior, is_operator, arithmetic, divide, get_postfix, exp_calculate}
use miscellaneous.Postfix.Grammar.{Expr, IsOperand, Spells, eval}
use miscellaneous.Postfix.Calculate.{exp_calculate-get_postfix}

pub data Operator : Type 0 where
  plus minus times over : Operator

abbrev pub symbol : Operator → ℕ
symbol plus = b'+'
symbol minus = b'-'
symbol times = b'*'
symbol over = b'/'

-- How tightly an operator binds.
abbrev pub level : Operator → ℕ
level plus = 1
level minus = 1
level times = 2
level over = 2

-- The operators on `int`, which fault where the result is none, or the divisor is zero.
abbrev pub apply : Operator → ℤ → ℤ → Run ℤ
apply plus v w = int (v +ℤ w)
apply minus v w = int (v -ℤ w)
apply times v w = int (v *ℤ w)
apply over v w = if eqb_ℤ w (pos 0) then fault else int (v /ℤ w)

pub data Tree : Type 0 where
  leaf : ℕ → Tree
  node : Operator → Tree → Tree → Tree

abbrev pub value : Tree → Run ℤ
value (leaf c) = ok (sub_ℕ c b'0')
value (node op l r) = do v ← value l; w ← value r; apply op v w

-- A character that is none of `+`, `-`, `*`, `/`, `(` and `)`.
pub record IsLeaf (c : ℕ) : Type 0 where
  pub no_plus : (c == b'+') ≡ false
  pub no_minus : (c == b'-') ≡ false
  pub no_times : (c == b'*') ≡ false
  pub no_over : (c == b'/') ≡ false
  pub no_open : (c == b'(') ≡ false
  pub no_close : (c == b')') ≡ false

-- `Writes p e s`: the text `s` stands for `e` where operators that bind at `p` or tighter are expected.
-- Operators of one level associate to the left, and parentheses may stand round any expression.
pub data Writes : ℕ → Tree → Text → Type 0 where
  atom : {p c : ℕ} → IsLeaf c → Writes p (leaf c) (c ∷ [])
  paren : {p : ℕ} {e : Tree} {s : Text} → Writes 1 e s → Writes p e (b'(' ∷ (s ++ b')' ∷ []))
  infix_op :
      {p : ℕ} {l r : Tree} {s t : Text} (op : Operator)
      → p ≤ level op
      → Writes (level op) l s
      → Writes (suc (level op)) r t
      → Writes p (node op l r) (s ++ symbol op ∷ t)

expr : Tree → Expr
expr (leaf c) = Expr.operand c
expr (node op l r) = Expr.binary (symbol op) (expr l) (expr r)

leaf-IsOperand : {c : ℕ} → IsLeaf c → IsOperand c
unfolding is_operator
leaf-IsOperand h = record {
  no_operator = rw (h.no_plus, h.no_minus, h.no_times, h.no_over) refl;
  no_open = h.no_open;
  no_close = h.no_close;
}

-- The code's tables have the operators at their levels.
symbol-is_operator : (op : Operator) → is_operator (symbol op) ≡ true
unfolding is_operator
symbol-is_operator plus = refl
symbol-is_operator minus = refl
symbol-is_operator times = refl
symbol-is_operator over = refl

symbol-prior : (op : Operator) → level op ≡ prior (symbol op)
unfolding prior
symbol-prior plus = refl
symbol-prior minus = refl
symbol-prior times = refl
symbol-prior over = refl

Writes→Spells : {p : ℕ} {e : Tree} {s : Text} → Writes p e s → Spells p (expr e) s
unfolding expr
Writes→Spells (atom h) = Spells.atom (leaf-IsOperand h)
Writes→Spells (paren d) = Spells.paren (Writes→Spells d)
Writes→Spells {p} (infix_op {l = l} {r = r} {s = s} {t = t} op h a b) =
    Spells.infix_op (symbol-is_operator op) (subst (λ k. p ≤ k) (symbol-prior op) h)
      (subst (λ k. Spells k (expr l) s) (symbol-prior op) (Writes→Spells a))
      (subst (λ k. Spells (suc k) (expr r) t) (symbol-prior op) (Writes→Spells b))

divide-over : (v w : ℤ) → divide v w ≡ apply over v w
divide-over v w = elim (Bool-cases (eqb_ℤ w (pos 0))) [ inl e ↦ rw e refl | inr e ↦ rw e refl ]

arithmetic-apply : (op : Operator) (v w : ℤ) → arithmetic (symbol op) v w ≡ apply op v w
unfolding arithmetic
arithmetic-apply plus v w = refl
arithmetic-apply minus v w = refl
arithmetic-apply times v w = refl
arithmetic-apply over v w = divide-over v w

eval-value : (e : Tree) → eval (expr e) ≡ value e
unfolding eval expr
eval-value (leaf c) = refl
eval-value (node op l r) =
    ap (λ m. m >>= λ v. eval (expr r) >>= λ w. arithmetic (symbol op) v w) (eval-value l)
    ∙ bind_congr (value l) λ v.
      ap (λ m. m >>= λ w. arithmetic (symbol op) v w) (eval-value r)
      ∙ bind_congr (value r) λ w. arithmetic-apply op v w

-- For every text that the grammar has for an expression, with `*` and `/` binding tighter than `+` and
-- `-`, `getPostfix` and then `expCalculate` end as the evaluation of the expression does: with its
-- value, or in a fault where an operation on `int` has none.
pub calculate_infix :
    {e : Tree} {s : Text} → Writes 1 e s → (get_postfix s >>= exp_calculate) ≡ value e
calculate_infix {e} d = exp_calculate-get_postfix (Writes→Spells d) ∙ eval-value e
