-- ===== src/Permutation.antt =====
-- struct_and_algo/permutation.cpp: the permutations of a piece of an array, by exchanging entries.
-- An array is a list of integers, and an index out of bounds faults. The indices are not negative.
-- The array, which the source changes in place, is returned beside the output.
mod Arrange
mod Loops
pub mod Enumerate
pub mod Split
mod Tests
use miscellaneous.Base.{
  ℕ, zero, suc, ◌+◌, ◌-◌, ◌^◌, List, [], ◌∷◌, ◌++◌, ltb, ◌==◌, if◌then◌else◌, length,
}
use miscellaneous.Base.Run.{Run, ok, out_of_fuel, ◌>>=◌, ◌>>◌, require}
use miscellaneous.Base.Array.{read, swap}
use miscellaneous.Base.Int.{ℤ, pos, negsuc, eqb_ℤ}

-- `for (int i = 0; i <= low; i++)`: the entries up to an index, read one by one.
pub read_upto : ℕ → ℕ → List ℤ → Run (List ℤ)
read_upto zero i a = ok []
read_upto (suc n) i a = do x ← read a i; xs ← read_upto n (suc i) a; ok (x ∷ xs)

-- The array, and the lines that `perm` has printed.
pub record Printed : Type 0 where
  pub array : List ℤ
  pub lines : List (List ℤ)

abbrev pub printed : List ℤ → List (List ℤ) → Printed
printed a ls = record { array = a; lines = ls }

-- `for (int i = low; i <= high; i++)` of `perm`, with `n` rounds left.
pub perm_rounds : (List ℤ → Run Printed) → ℕ → ℕ → ℕ → List ℤ → Run Printed
perm_rounds recurse zero i low list = ok (printed list [])
perm_rounds recurse (suc n) i low list = do
  swapped ← swap list i low
  inner ← recurse swapped
  restored ← swap inner.array i low
  rest ← perm_rounds recurse n (suc i) low restored
  ok (printed rest.array (inner.lines ++ rest.lines))

-- The recursion is at most `high - low` deep. With `low` beyond `high` the loop makes no round.
pub perm_fuel : ℕ → List ℤ → ℕ → ℕ → Run Printed
perm_fuel zero list low high = out_of_fuel
perm_fuel (suc fuel) list low high =
    let line : Run Printed = do xs ← read_upto (suc low) 0 list; ok (printed list (xs ∷ []))
    in let loop : Run Printed =
        perm_rounds (λ b. perm_fuel fuel b (suc low) high) (suc high - low) low low list in
      if low == high then line else loop

unfoldable pub perm : List ℤ → ℕ → ℕ → Run Printed
unfolding perm_fuel perm_rounds read_upto swap read
perm list low high = perm_fuel (suc high - low + 1) list low high

-- The array and the vector `output` of `printPermutation`.
pub record Pushed : Type 0 where
  pub input : List ℤ
  pub output : List ℤ

abbrev pub pushed : List ℤ → List ℤ → Pushed
pushed a out = record { input = a; output = out }

abbrev pub delimiter : ℤ
delimiter = negsuc 998

pub print_rounds : (List ℤ → List ℤ → Run Pushed) → ℕ → ℕ → ℕ → List ℤ → List ℤ → Run Pushed
print_rounds recurse zero i left input output = ok (pushed input output)
print_rounds recurse (suc n) i left input output = do
  swapped ← swap input left i
  inner ← recurse swapped output
  restored ← swap inner.input left i
  print_rounds recurse n (suc i) left restored inner.output

pub print_fuel : ℕ → List ℤ → ℕ → ℕ → List ℤ → Run Pushed
print_fuel zero input left right output = out_of_fuel
print_fuel (suc fuel) input left right output =
    let line : Run Pushed = do
      xs ← read_upto (suc left) 0 input
      ok (pushed input ((output ++ xs) ++ delimiter ∷ []))
    in let loop : Run Pushed =
        print_rounds (λ b out. print_fuel fuel b (suc left) right out) (suc right - left) left left
          input output in
      if left == right then line else loop

unfoldable pub print_permutation : List ℤ → ℕ → ℕ → List ℤ → Run Pushed
unfolding print_fuel print_rounds read_upto swap read
print_permutation input left right output =
    print_fuel (suc right - left + 1) input left right output

-- The loop of `permutation` over `oneLine`, with `onePiece` and `res`.
pub split_lines : List ℤ → List ℤ → List (List ℤ) → List (List ℤ)
split_lines [] one_piece res = res
split_lines (x ∷ one_line) one_piece res =
    let cut = split_lines one_line [] (res ++ one_piece ∷ []) in
    let more = split_lines one_line (one_piece ++ x ∷ []) res in
    if eqb_ℤ x delimiter then cut else more

-- The index of that loop is an `int`: it overflows on 2^31 entries or more.
unfoldable pub permutation : List ℤ → ℕ → ℕ → Run (List (List ℤ))
unfolding print_permutation split_lines
permutation input left right = do
  p ← print_permutation input left right []
  require (ltb (length p.output) (2 ^ 31))
  ok (split_lines p.output [] [])

-- What `main` prints: the lines that `permutation` returns, and those of `perm`.
unfoldable pub main : Run (List (List ℤ) × List (List ℤ))
unfolding permutation perm
main = do
  let test = pos 1 ∷ pos 2 ∷ pos 3 ∷ pos 4 ∷ []
  arrays ← permutation test 0 3
  p ← perm test 0 3
  ok (arrays, p.lines)
