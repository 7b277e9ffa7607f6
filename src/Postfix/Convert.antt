-- ===== src/Postfix/Convert.antt =====
-- struct_and_algo/reverse_polish_notation.cpp: `getPostfix` turns every infix text of the grammar
-- into the postorder of the expression that it stands for.
use mathlib.Core.List.{append-nil, append_assoc}
use miscellaneous.Base.{
  Text, ℕ, suc, ◌≤◌, ◌<◌, ◌≡◌, refl, sym, ap, ◌∙◌, [], ◌∷◌, ◌++◌, true, false, leb, ◌==◌, arith,
  All, All-append, Bool-cases, inl, inr,
}
use miscellaneous.Base.Run.{ok, ◌>>=◌, bind_congr, bind_assoc}
use miscellaneous.Postfix.{
  prior, is_operator, State, state, pop_operators, pop_to_paren, scan_char, scan, flush,
  get_postfix,
}
use miscellaneous.Postfix.Grammar.{Expr, IsOperand, Spells, atom, paren, infix_op, postorder}

scan-append : (s t : Text) (st : State) → scan (s ++ t) st ≡ (scan s st >>= scan t)
unfolding scan
scan-append [] t st = refl
scan-append (c ∷ s) t st =
    bind_congr (scan_char c st) (scan-append s t)
    ∙ sym (bind_assoc (scan_char c st) (scan s) (scan t))

-- An operator that waits for its right side, of priority `p` or more.
abbrev IsPending : ℕ → ℕ → Type 0
IsPending p t = (is_operator t ≡ true) × (p ≤ prior t)

-- No operator of priority `p` or more lies on the top of the stack.
abbrev IsLow : ℕ → Text → Type 0
IsLow p [] = Unit
IsLow p (t ∷ s) = is_operator t ≡ true → prior t < p

operator-ne-paren : (t : ℕ) → is_operator t ≡ true → (t == b'(') ≡ false
unfolding is_operator
operator-ne-paren t h = ground arith

module _ (c : ℕ) where
  pop_operators-low :
      (st out : Text) → IsLow (prior c) st → pop_operators c st out ≡ state st (out ++ [])
  unfolding pop_operators
  pop_operators-low [] out h = rw append-nil
  pop_operators-low (t ∷ s) out h = elim (Bool-cases (is_operator t)) [
    | inl e ↦
        let lower = h e in
        let stops : leb (prior c) (prior t) ≡ false = ground arith in rw (e, stops, append-nil)
    | inr e ↦ rw (e, append-nil)
  ]

  pop_operators-pending :
      (pend st out : Text)
      → All (IsPending (prior c)) pend
      → IsLow (prior c) st
      → pop_operators c (pend ++ st) out ≡ state st (out ++ pend)
  unfolding pop_operators
  pop_operators-pending [] st out ps low = pop_operators-low st out low
  pop_operators-pending (t ∷ pend) st out ((op, h), ps) low =
      let ih = pop_operators-pending pend st (out ++ t ∷ []) ps low in
      let goes : leb (prior c) (prior t) ≡ true = ground arith in rw (op, goes, ih, append_assoc)

pop_to_paren-pending :
    (pend st out : Text)
    → All (IsPending 1) pend
    → pop_to_paren (pend ++ b'(' ∷ st) out ≡ ok (state st (out ++ pend))
unfolding pop_to_paren
pop_to_paren-pending [] st out ps = rw append-nil
pop_to_paren-pending (t ∷ pend) st out ((op, h), ps) =
    rw (operator-ne-paren t op, pop_to_paren-pending pend st (out ++ t ∷ []) ps, append_assoc)

flush-append : (s out : Text) → flush s out ≡ out ++ s
unfolding flush
flush-append [] out = rw append-nil
flush-append (t ∷ s) out = rw (flush-append s, append_assoc)

-- What scanning the text of `e` does: it leaves pending operators of priority `p` or more, which
-- complete the postorder of `e` when they are popped.
record Scanned (p : ℕ) (e : Expr) (s st out : Text) : Type 0 where
  pend : Text
  done : Text
  pending : All (IsPending p) pend
  complete : done ++ pend ≡ out ++ postorder e
  runs : scan s (state st out) ≡ ok (state (pend ++ st) done)

module _ (c : ℕ) (st out : Text) where
  scan_char-operator :
      is_operator c ≡ true
      → scan_char c (state st out)
        ≡ ok (state (c ∷ (pop_operators c st out).op_stack) (pop_operators c st out).output)
  unfolding scan_char
  scan_char-operator h = rw h

  scan_char-operand : IsOperand c → scan_char c (state st out) ≡ ok (state st (out ++ c ∷ []))
  unfolding scan_char
  scan_char-operand h = rw (h.no_operator, h.no_open, h.no_close)

scan_char-open : (st out : Text) → scan_char b'(' (state st out) ≡ ok (state (b'(' ∷ st) out)
unfolding scan_char is_operator
scan_char-open st out = refl

scan_char-close : (st out : Text) → scan_char b')' (state st out) ≡ pop_to_paren st out
unfolding scan_char is_operator
scan_char-close st out = refl

IsLow-open : (p : ℕ) (st : Text) → IsLow p (b'(' ∷ st)
unfolding is_operator
IsLow-open p st = λ e. cc

IsLow-le : (p q : ℕ) (st : Text) → p ≤ q → IsLow p st → IsLow q st
IsLow-le p q [] h low = tt
IsLow-le p q (t ∷ st) h low = λ e. let lower = low e in omega arith

IsPending-le : (p q : ℕ) (s : Text) → p ≤ q → All (IsPending q) s → All (IsPending p) s
IsPending-le p q [] h ps = tt
IsPending-le p q (t ∷ s) h ((op, k), ps) = ((op, omega arith), IsPending-le p q s h ps)

Spells-Scanned :
    {p : ℕ} {e : Expr} {s : Text}
    → Spells p e s
    → (st out : Text) → IsLow p st
    → Scanned p e s st out
unfolding scan postorder
Spells-Scanned (atom {c = c} h) st out low = record {
  pend = [];
  done = out ++ c ∷ [];
  pending = tt;
  complete = append-nil _;
  runs = rw (scan_char-operand c st out h);
}
Spells-Scanned (paren {s = s} d) st out low =
    let r = Spells-Scanned d (b'(' ∷ st) out (IsLow-open 1 st) in
    record {
      pend = [];
      done = r.done ++ r.pend;
      pending = tt;
      complete = append-nil _ ∙ r.complete;
      runs = rw (
        scan_char-open,
        scan-append,
        r.runs,
        scan_char-close,
        pop_to_paren-pending r.pend st r.done r.pending,
      );
    }
Spells-Scanned (infix_op {p = p} {op = op} {s = s} {t = t} o h l r) st out low =
    let a = Spells-Scanned l st out (IsLow-le p (prior op) st h low) in
    let b = Spells-Scanned r (op ∷ st) (a.done ++ a.pend) (λ e. omega arith) in
    record {
      pend = b.pend ++ op ∷ [];
      done = b.done;
      pending =
          All-append (IsPending p) b.pend (op ∷ [])
            (IsPending-le p (suc (prior op)) b.pend (omega arith) b.pending) ((o, h), tt);
      complete =
          sym (append_assoc b.done b.pend (op ∷ []))
          ∙ ap (λ x. x ++ op ∷ []) b.complete
          ∙ rw a.complete (simp append_assoc);
      runs = rw (
        scan-append,
        a.runs,
        scan_char-operator op (a.pend ++ st) a.done o,
        pop_operators-pending op a.pend st a.done a.pending (IsLow-le p (prior op) st h low),
        b.runs,
        append_assoc,
      );
    }

-- For every text that the grammar has for an expression, with any redundant parentheses,
-- `getPostfix` ends without a fault and gives the postorder of the expression.
pub get_postfix-Spells : {e : Expr} {s : Text} → Spells 1 e s → get_postfix s ≡ ok (postorder e)
unfolding get_postfix
get_postfix-Spells d =
    let r = Spells-Scanned d [] [] tt in
    rw r.runs (ap ok (flush-append (r.pend ++ []) r.done ∙ rw append-nil r.complete))
