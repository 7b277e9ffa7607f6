-- ===== src/Postfix/Parens.antt =====
-- struct_and_algo/reverse_polish_notation.cpp: when `getPostfix` is defined.
use miscellaneous.Base.{
  Text, ℕ, zero, suc, ◌≡◌, refl, ◌∙◌, ◌⊎◌, [], ◌∷◌, ◌++◌, Bool, true, false, ◌==◌, if◌then◌else◌,
  arith, Bool-cases, inl, inr,
}
use miscellaneous.Base.Run.{Run, ok, fault, out_of_fuel, ◌>>=◌}
use miscellaneous.Postfix.{
  is_operator, State, state, pop_operators, pop_to_paren, scan_char, scan, get_postfix,
}

-- No `)` of the text closes more parentheses than are open, `depth` being open in front of it.
unfoldable pub closes_in_order : ℕ → Text → Bool
closes_in_order depth [] = true
closes_in_order depth (c ∷ s) =
    if c == b'('
    then closes_in_order (suc depth) s
    else if c == b')'
    then (elim depth [ zero ↦ false | suc d ↦ closes_in_order d s ])
    else closes_in_order depth s

abbrev pub is_ok {ℓ} : {A : Type ℓ} → Run A → Bool
is_ok (ok a) = true
is_ok fault = false
is_ok out_of_fuel = false

-- The parentheses on a stack.
opens : Text → ℕ
opens [] = 0
opens (t ∷ s) = if t == b'(' then suc (opens s) else opens s

opens-pop_operators : (c : ℕ) (s out : Text) → opens (pop_operators c s out).op_stack ≡ opens s
unfolding opens pop_operators is_operator
opens-pop_operators c [] out = refl
opens-pop_operators c (t ∷ s) out = ground (arith, opens-pop_operators c s (out ++ t ∷ []))

pop_to_paren-none : (s out : Text) → opens s ≡ 0 → pop_to_paren s out ≡ fault
unfolding opens pop_to_paren
pop_to_paren-none [] out e = refl
pop_to_paren-none (t ∷ s) out e = ground (arith, pop_to_paren-none s (out ++ t ∷ []))

pop_to_paren-some :
    (s out : Text) (d : ℕ)
    → opens s ≡ suc d
    → (st : State) × (pop_to_paren s out ≡ ok st) × (opens st.op_stack ≡ d)
unfolding opens pop_to_paren
pop_to_paren-some [] out d e = absurd (omega arith)
pop_to_paren-some (t ∷ s) out d e = elim (Bool-cases (t == b'(')) [
  | inl h ↦ (state s out, rw h, ground arith)
  | inr h ↦
      let (st, runs, left) = pop_to_paren-some s (out ++ t ∷ []) d (ground arith) in
      (st, rw h runs, left)
]

-- One character keeps the count of open parentheses, or faults at a `)` with none open.
abbrev Follows : ℕ → Text → State → Type 0
Follows c s st =
    ((st' : State) × (scan_char c st ≡ ok st')
      × (closes_in_order (opens st.op_stack) (c ∷ s) ≡ closes_in_order (opens st'.op_stack) s))
    ⊎ ((scan_char c st ≡ fault) × (closes_in_order (opens st.op_stack) (c ∷ s) ≡ false))

close-Follows :
    (c : ℕ) (s : Text) (st : State) (d : ℕ)
    → is_operator c ≡ false
    → (c == b'(') ≡ false
    → (c == b')') ≡ true
    → opens st.op_stack ≡ d
    → Follows c s st
unfolding scan_char closes_in_order
close-Follows c s st zero n o e h =
    inr (rw (n, o, e) (pop_to_paren-none st.op_stack st.output h), rw (h, o, e))
close-Follows c s st (suc d) n o e h =
    let (st', runs, left) = pop_to_paren-some st.op_stack st.output d h in
    inl (st', rw (n, o, e) runs, rw (h, o, e, left))

operator-no-paren : (c : ℕ) → is_operator c ≡ true → ((c == b'(') ≡ false) × ((c == b')') ≡ false)
unfolding is_operator
operator-no-paren c h = ground arith

scan_char-Follows : (c : ℕ) (s : Text) (st : State) → Follows c s st
unfolding scan_char closes_in_order opens
scan_char-Follows c s st = elim (Bool-cases (is_operator c)) [
  | inl o ↦
      let (not_open, not_close) = operator-no-paren c o in
      let st' = pop_operators c st.op_stack st.output in
      inl (
        record st' { op_stack = c ∷ st'.op_stack },
        rw o,
        rw (not_open, not_close, opens-pop_operators c st.op_stack st.output),
      )
  | inr n ↦ elim (Bool-cases (c == b'(')) [
    | inl e ↦ inl (record st { op_stack = c ∷ st.op_stack }, rw (n, e), rw e)
    | inr o ↦ elim (Bool-cases (c == b')')) [
      | inl e ↦ close-Follows c s st (opens st.op_stack) n o e refl
      | inr k ↦ inl (record st { output = st.output ++ c ∷ [] }, rw (n, o, k), rw (o, k))
    ]
  ]
]

scan_defined : (s : Text) (st : State) → is_ok (scan s st) ≡ closes_in_order (opens st.op_stack) s
unfolding scan
scan_defined [] st = unfold closes_in_order in refl
scan_defined (c ∷ s) st = elim (scan_char-Follows c s st) [
  | inl (st', runs, same) ↦ rw (runs, same) (scan_defined s st')
  | inr (stops, none_open) ↦ rw (stops, none_open)
]

is_ok-bind {ℓ κ} :
    {A : Type ℓ} {B : Type κ} (m : Run A) (f : A → B) → is_ok (m >>= λ a. ok (f a)) ≡ is_ok m
is_ok-bind (ok a) f = refl
is_ok-bind fault f = refl
is_ok-bind out_of_fuel f = refl

-- `getPostfix` returns on a text exactly when none of its `)` lacks a `(` before it; on any other
-- text it reads the top of an empty stack. A `(` that is never closed does not stop it.
pub get_postfix_defined : (s : Text) → is_ok (get_postfix s) ≡ closes_in_order 0 s
unfolding get_postfix
get_postfix_defined s =
    is_ok-bind (scan s (state [] [])) _ ∙ unfold opens in scan_defined s (state [] [])
