-- ===== src/Postfix/Operands.antt =====
-- struct_and_algo/reverse_polish_notation.cpp: `getPostfix` keeps the operands in their order.
use mathlib.Core.List.{append-nil, append_assoc}
use miscellaneous.Base.{
  Text, ℕ, ◌≡◌, refl, ap, ◌∙◌, [], ◌∷◌, ◌++◌, Bool, true, false, ◌||◌, ◌&&◌, leb, ◌==◌,
  if◌then◌else◌, arith, All, Bool-cases, inl, inr,
}
use miscellaneous.Base.Run.{Run, ok, fault, out_of_fuel, ◌>>=◌}
use miscellaneous.Postfix.Parens.{closes_in_order, is_ok, get_postfix_defined}
use miscellaneous.Postfix.{
  prior, is_operator, State, state, pop_operators, pop_to_paren, scan_char, scan, flush,
  get_postfix,
}

-- What is neither an operator nor a parenthesis.
pub is_operand : ℕ → Bool
is_operand c = if is_operator c || c == b'(' || c == b')' then false else true

pub operands : Text → Text
operands [] = []
operands (c ∷ s) = if is_operand c then c ∷ operands s else operands s

pub operands-append : (s t : Text) → operands (s ++ t) ≡ operands s ++ operands t
unfolding operands
operands-append [] t = refl
operands-append (c ∷ s) t = ground (arith, operands-append s t)

abbrev IsClean : Text → Type 0
IsClean = All (λ t. is_operand t ≡ false)

-- The output has the operands `seen`, and the stack has none.
record Keeps (seen : Text) (st : State) : Type 0 where
  same : operands st.output ≡ seen
  clean : IsClean st.op_stack

-- `P` holds of the value, if the run returns one.
abbrev IfOk : {A : Type 0} → (A → Type 0) → Run A → Type 0
IfOk P (ok a) = P a
IfOk P fault = Unit
IfOk P out_of_fuel = Unit

IfOk-bind :
    {A B : Type 0} {P : A → Type 0} (Q : B → Type 0) (m : Run A) (f : A → Run B)
    → IfOk P m
    → ((a : A) → P a → IfOk Q (f a))
    → IfOk Q (m >>= f)
IfOk-bind Q (ok a) f h k = k a h
IfOk-bind Q fault f h k = tt
IfOk-bind Q out_of_fuel f h k = tt

drop_other : (t : ℕ) (out : Text) → is_operand t ≡ false → operands (out ++ t ∷ []) ≡ operands out
unfolding operands
drop_other t out h = operands-append out (t ∷ []) ∙ rw h (append-nil (operands out))

pop_operators-Keeps :
    (c : ℕ) (s out : Text) → IsClean s → Keeps (operands out) (pop_operators c s out)
unfolding pop_operators
pop_operators-Keeps c [] out h = record { same = refl; clean = tt }
pop_operators-Keeps c (t ∷ s) out (h, hs) =
    elim (is_operator t && leb (prior c) (prior t))
      as (λ b.
        Keeps (operands out) (if b then pop_operators c s (out ++ t ∷ []) else state (t ∷ s) out)) [
          | true ↦ rw (drop_other t out h) at (pop_operators-Keeps c s (out ++ t ∷ []) hs)
          | false ↦ record { same = refl; clean = (h, hs) }
        ]

pop_to_paren-Keeps : (s out : Text) → IsClean s → IfOk (Keeps (operands out)) (pop_to_paren s out)
unfolding pop_to_paren
pop_to_paren-Keeps [] out h = tt
pop_to_paren-Keeps (t ∷ s) out (h, hs) =
    elim (t == b'(')
      as (λ b.
        IfOk (Keeps (operands out))
          (if b then ok (state s out) else pop_to_paren s (out ++ t ∷ []))) [
            | true ↦ record { same = refl; clean = hs }
            | false ↦ rw (drop_other t out h) at (pop_to_paren-Keeps s (out ++ t ∷ []) hs)
          ]

Keeps-other :
    (c : ℕ) {seen : Text} {st : State}
    → is_operand c ≡ false
    → Keeps seen st
    → Keeps (seen ++ operands (c ∷ [])) st
unfolding operands
Keeps-other c {seen} h k = rw (h, append-nil seen) k

Keeps-operand :
    (c : ℕ) {seen : Text} {st : State}
    → is_operand c ≡ true
    → Keeps seen st
    → Keeps (seen ++ operands (c ∷ [])) (record st { output = st.output ++ c ∷ [] })
Keeps-operand c {seen} {st} h k = record {
  same = operands-append st.output (c ∷ []) ∙ ap (λ x. x ++ operands (c ∷ [])) k.same;
  clean = k.clean;
}

module _ (c : ℕ) where
  operator-other : is_operator c ≡ true → is_operand c ≡ false
  unfolding is_operand
  operator-other h = rw h

  open-other : (c == b'(') ≡ true → is_operand c ≡ false
  unfolding is_operand
  open-other h = ground arith

  close-other : (c == b')') ≡ true → is_operand c ≡ false
  unfolding is_operand
  close-other h = ground arith

  is_operand_lem :
      is_operator c ≡ false → (c == b'(') ≡ false → (c == b')') ≡ false → is_operand c ≡ true
  unfolding is_operand
  is_operand_lem n o k = rw (n, o, k)

IfOk-map : {A : Type 0} {P Q : A → Type 0} (m : Run A) → ((a : A) → P a → Q a) → IfOk P m → IfOk Q m
IfOk-map (ok a) f h = f a h
IfOk-map fault f h = tt
IfOk-map out_of_fuel f h = tt

scan_char-Keeps :
    (c : ℕ) (st : State) (seen : Text)
    → Keeps seen st
    → IfOk (Keeps (seen ++ operands (c ∷ []))) (scan_char c st)
unfolding scan_char
scan_char-Keeps c st seen k = elim (Bool-cases (is_operator c)) [
  | inl o ↦
      let p = pop_operators-Keeps c st.op_stack st.output k.clean in
      rw o (
        Keeps-other c (operator-other c o)
          (record { same = p.same ∙ k.same; clean = (operator-other c o, p.clean) }))
  | inr n ↦ elim (Bool-cases (c == b'(')) [
    | inl e ↦
        rw (n, e)
          (Keeps-other c (open-other c e)
            (record { same = k.same; clean = (open-other c e, k.clean) }))
    | inr x ↦ elim (Bool-cases (c == b')')) [
      | inl e ↦
          rw (n, x, e)
            (IfOk-map (pop_to_paren st.op_stack st.output)
              (λ st' p.
                Keeps-other c (close-other c e)
                  (record { same = p.same ∙ k.same; clean = p.clean }))
              (pop_to_paren-Keeps st.op_stack st.output k.clean))
      | inr y ↦ rw (n, x, y) (Keeps-operand c (is_operand_lem c n x y) k)
    ]
  ]
]

scan-Keeps :
    (s : Text) (st : State) (seen : Text)
    → Keeps seen st
    → IfOk (Keeps (seen ++ operands s)) (scan s st)
unfolding scan
scan-Keeps [] st seen k = unfold operands in rw (append-nil seen) k
scan-Keeps (c ∷ s) st seen k =
    IfOk-bind _ (scan_char c st) (scan s) (scan_char-Keeps c st seen k) λ st' k'.
      rw (append_assoc, ← operands-append (c ∷ []) s) at
        (scan-Keeps s st' (seen ++ operands (c ∷ [])) k')

flush-clean : (s out : Text) → IsClean s → operands (flush s out) ≡ operands out
unfolding flush
flush-clean [] out h = refl
flush-clean (t ∷ s) out (h, hs) = flush-clean s (out ++ t ∷ []) hs ∙ drop_other t out h

get_postfix-IfOk : (s : Text) → IfOk (λ out. operands out ≡ operands s) (get_postfix s)
unfolding get_postfix
get_postfix-IfOk s =
    IfOk-bind _ (scan s (state [] [])) _
      (scan-Keeps s (state [] []) [] (record { same = unfold operands in refl; clean = tt }))
      λ st k. flush-clean st.op_stack st.output k.clean ∙ k.same

-- On every text whose parentheses close in order `getPostfix` returns, and its result has the
-- operands of the text in the same order.
pub operands-get_postfix :
    (s : Text)
    → closes_in_order 0 s ≡ true
    → (out : Text) × (get_postfix s ≡ ok out) × (operands out ≡ operands s)
operands-get_postfix s h =
    let (out, e) = value (get_postfix s) (get_postfix_defined s ∙ h) in
    (out, e, rw e at (get_postfix-IfOk s))
  where
    value : (r : Run Text) → is_ok r ≡ true → (out : Text) × (r ≡ ok out)
    value (ok out) e = (out, refl)
    value fault e = cc
    value out_of_fuel e = cc
