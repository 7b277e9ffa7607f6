-- ===== src/Permutation/Tests.antt =====
-- struct_and_algo/permutation.cpp: runs, and the theorems at inputs.
use miscellaneous.Base.{◌≡◌, refl, List, [], ◌∷◌, arith, length}
use miscellaneous.Base.Run.{ok, Yields}
use miscellaneous.Base.Int.{ℤ, pos}
use miscellaneous.Permutation.{printed, delimiter, perm, permutation, main}
use miscellaneous.Permutation.Arrange.{factorial}
use miscellaneous.Permutation.Enumerate.{Enumerates, perm-Enumerates}
use miscellaneous.Permutation.Split.{NoDelimiter, permutation-Enumerates}

abbrev one : ℤ
one = pos 1

abbrev two : ℤ
two = pos 2

abbrev three : ℤ
three = pos 3

abbrev input : List ℤ
input = one ∷ two ∷ three ∷ []

abbrev lines_of_input : List (List ℤ)
lines_of_input =
    (one ∷ two ∷ three ∷ [])
    ∷ (one ∷ three ∷ two ∷ [])
    ∷ (two ∷ one ∷ three ∷ [])
    ∷ (two ∷ three ∷ one ∷ [])
    ∷ (three ∷ two ∷ one ∷ [])
    ∷ (three ∷ one ∷ two ∷ [])
    ∷ []

perm_runs : perm input 0 2 ≡ ok (printed input lines_of_input)
unfolding perm
perm_runs = refl

permutation_runs : permutation input 0 2 ≡ ok lines_of_input
unfolding permutation
permutation_runs = refl

-- `permutation` and then `perm` print the same 24 lines.
main_prints_twice : Yields (λ (first, second). (first ≡ second) × (length first ≡ 24)) main
unfolding main
main_prints_twice = Yields.yields (refl, refl)

-- An entry -999 is taken for the end of a line.
delimiter_splits : permutation (delimiter ∷ one ∷ []) 0 0 ≡ ok ([] ∷ [] ∷ [])
unfolding permutation
delimiter_splits = refl

perm-Enumerates_example :
    Yields
      (λ p. (p.array ≡ one ∷ two ∷ three ∷ []) × Enumerates (one ∷ []) (two ∷ three ∷ []) p.lines)
      (perm (one ∷ two ∷ three ∷ []) 1 2)
perm-Enumerates_example = perm-Enumerates (one ∷ []) (two ∷ three ∷ []) [] (omega arith)

two-three-NoDelimiter : NoDelimiter (two ∷ three ∷ [])
two-three-NoDelimiter = ((λ e. cc), ((λ e. cc), tt))

permutation-Enumerates_example :
    Yields
      (λ ls.
        (perm (two ∷ three ∷ one ∷ []) 0 1 ≡ ok (printed (two ∷ three ∷ one ∷ []) ls))
        × Enumerates [] (two ∷ three ∷ []) ls)
      (permutation (two ∷ three ∷ one ∷ []) 0 1)
unfolding factorial
permutation-Enumerates_example =
    permutation-Enumerates [] (two ∷ three ∷ []) (one ∷ []) (omega arith) tt two-three-NoDelimiter
      (omega arith)
