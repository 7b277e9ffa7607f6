-- ===== src/Postfix.antt =====
-- struct_and_algo/reverse_polish_notation.cpp: infix to postfix with an operator stack, and the
-- value of a postfix expression.
-- A `char` is its ASCII code. A `stack` is a list, its top first; `top` and `pop` of an empty stack
-- are undefined in the source, and so are division by zero and `int` overflow: they fault.
pub mod Grammar
pub mod Convert
pub mod Calculate
pub mod Meaning
pub mod Parens
pub mod Operands
mod Tests
use miscellaneous.Base.{
  ℕ, Text, text, List, [], ◌∷◌, ◌++◌, Bool, true, false, ◌||◌, ◌&&◌, leb, ◌==◌, if◌then◌else◌,
}
use miscellaneous.Base.Run.{Run, ok, fault, ◌>>=◌, ◌>>◌, require}
use miscellaneous.Base.Int.{ℤ, pos, sub_ℕ, int, ◌+ℤ◌, ◌-ℤ◌, ◌*ℤ◌, ◌/ℤ◌, eqb_ℤ}

unfoldable pub prior : ℕ → ℕ
prior c = if c == b'+' || c == b'-' then 1 else if c == b'*' || c == b'/' then 2 else 0

unfoldable pub is_operator : ℕ → Bool
is_operator c = c == b'+' || c == b'-' || c == b'*' || c == b'/'

-- The variables of `getPostfix`.
pub record State : Type 0 where
  pub op_stack : Text
  pub output : Text

abbrev pub state : Text → Text → State
state s out = record { op_stack = s; output = out }

-- `while (!op_stack.empty() && isOperator(op_stack.top()) && prior(op_stack.top()) >= prior(c))`
pub pop_operators : ℕ → Text → Text → State
pop_operators c [] out = state [] out
pop_operators c (t ∷ s) out =
    if is_operator t && leb (prior c) (prior t)
    then pop_operators c s (out ++ t ∷ [])
    else state (t ∷ s) out

-- `while (op_stack.top() != '(')`, and the `pop` after it.
pub pop_to_paren : Text → Text → Run State
pop_to_paren [] out = fault
pop_to_paren (t ∷ s) out = if t == b'(' then ok (state s out) else pop_to_paren s (out ++ t ∷ [])

-- The body of the `for` loop of `getPostfix`, then the loop.
pub scan_char : ℕ → State → Run State
scan_char c st =
    if is_operator c
    then (let st' = pop_operators c st.op_stack st.output in
        ok (record st' { op_stack = c ∷ st'.op_stack }))
    else if c == b'('
    then ok (record st { op_stack = c ∷ st.op_stack })
    else if c == b')'
    then pop_to_paren st.op_stack st.output
    else ok (record st { output = st.output ++ c ∷ [] })

pub scan : Text → State → Run State
scan [] st = ok st
scan (c ∷ expr) st = scan_char c st >>= scan expr

-- `while (!op_stack.empty())`
pub flush : Text → Text → Text
flush [] out = out
flush (t ∷ s) out = flush s (out ++ t ∷ [])

unfoldable pub get_postfix : Text → Run Text
unfolding scan scan_char pop_operators pop_to_paren flush prior is_operator
get_postfix expr = do st ← scan expr (state [] []); ok (flush st.op_stack st.output)

-- The operands, first popped first, and the rest of the stack.
pub pop_two_numbers : List ℤ → Run (ℤ × ℤ × List ℤ)
pop_two_numbers (first ∷ second ∷ s) = ok (first, second, s)
pop_two_numbers _ = fault

-- `second / first`
abbrev pub divide : ℤ → ℤ → Run ℤ
divide second first = require (if eqb_ℤ first (pos 0) then false else true) >> int (second /ℤ first)

-- `second op first` for the operator `op`.
unfoldable pub arithmetic : ℕ → ℤ → ℤ → Run ℤ
unfolding ◌+ℤ◌ ◌-ℤ◌ ◌*ℤ◌ ◌/ℤ◌
arithmetic op second first =
    if op == b'+'
    then int (second +ℤ first)
    else if op == b'-'
    then int (second -ℤ first)
    else if op == b'*'
    then int (second *ℤ first)
    else divide second first

-- The body of the `for` loop of `expCalculate`, then the loop.
pub calculate_char : ℕ → List ℤ → Run (List ℤ)
calculate_char c s =
    let operate : Run (List ℤ) = do
      (first, second, rest) ← pop_two_numbers s
      v ← arithmetic c second first
      ok (v ∷ rest)
    in if is_operator c then operate else ok (sub_ℕ c b'0' ∷ s)

pub calculate : Text → List ℤ → Run (List ℤ)
calculate [] s = ok s
calculate (c ∷ postfix) s = calculate_char c s >>= calculate postfix

-- `s.top()`
abbrev pub top : List ℤ → Run ℤ
top [] = fault
top (v ∷ s) = ok v

unfoldable pub exp_calculate : Text → Run ℤ
unfolding calculate calculate_char pop_two_numbers arithmetic is_operator
exp_calculate postfix = calculate postfix [] >>= top

-- What `main` prints: the postfix form of one text, and the value of another.
unfoldable pub main : Run (Text × ℤ)
unfolding get_postfix exp_calculate
main = do
  postfix ← get_postfix (text "a+b*c+(d*e+f)*g")
  postfix1 ← get_postfix (text "5+2*(6-3)-4/2")
  v ← exp_calculate postfix1
  ok (postfix, v)
