-- ===== src/Postfix/Tests.antt =====
-- struct_and_algo/reverse_polish_notation.cpp: the runs of `main`, and the theorems at inputs.
use miscellaneous.Base.{Text, text, ◌≡◌, refl, arith}
use miscellaneous.Base.Run.{ok, ◌>>=◌}
use miscellaneous.Base.Int.{pos, ◌+ℤ◌, ◌-ℤ◌}
use miscellaneous.Postfix.{main, get_postfix, exp_calculate}
use miscellaneous.Postfix.Meaning.{
  plus, minus, Tree, leaf, node, value, IsLeaf, Writes, atom, paren, infix_op, calculate_infix,
}
use miscellaneous.Postfix.Parens.{closes_in_order, is_ok, get_postfix_defined}
use miscellaneous.Postfix.Operands.{operands, operands-get_postfix}

main_prints : main ≡ ok (text "abc*+de*f+g*+", pos 9)
unfolding main
main_prints = refl

unclosed : get_postfix (text "(a+b") ≡ ok (text "ab+(")
unfolding get_postfix
unclosed = refl

-- 8-(2+3)
abbrev sample : Tree
sample = node minus (leaf b'8') (node plus (leaf b'2') (leaf b'3'))

IsLeaf-8 : IsLeaf b'8'
IsLeaf-8 = record {
  no_plus = refl;
  no_minus = refl;
  no_times = refl;
  no_over = refl;
  no_open = refl;
  no_close = refl;
}

IsLeaf-2 : IsLeaf b'2'
IsLeaf-2 = record {
  no_plus = refl;
  no_minus = refl;
  no_times = refl;
  no_over = refl;
  no_open = refl;
  no_close = refl;
}

IsLeaf-3 : IsLeaf b'3'
IsLeaf-3 = record {
  no_plus = refl;
  no_minus = refl;
  no_times = refl;
  no_over = refl;
  no_open = refl;
  no_close = refl;
}

sample-Writes : Writes 1 sample (text "8-(2+3)")
sample-Writes =
    infix_op minus (omega arith) (atom IsLeaf-8)
      (paren (infix_op plus (omega arith) (atom IsLeaf-2) (atom IsLeaf-3)))

sample-value : value sample ≡ ok (pos 3)
unfolding ◌+ℤ◌ ◌-ℤ◌
sample-value = refl

calculate_infix_example : (get_postfix (text "8-(2+3)") >>= exp_calculate) ≡ value sample
calculate_infix_example = calculate_infix sample-Writes

get_postfix_defined_example : is_ok (get_postfix (text "a)+b")) ≡ closes_in_order 0 (text "a)+b")
get_postfix_defined_example = get_postfix_defined (text "a)+b")

operands-get_postfix_example :
    (out : Text) × (get_postfix (text "(a+b") ≡ ok out) × (operands out ≡ operands (text "(a+b"))
unfolding closes_in_order
operands-get_postfix_example = operands-get_postfix (text "(a+b") refl
