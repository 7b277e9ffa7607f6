-- ===== src/Permutation/Enumerate.antt =====
-- struct_and_algo/permutation.cpp: `perm` lists the permutations of a piece of an array.
use mathlib.Core.List.{mem-map_of_mem}
use miscellaneous.Base.{
  ◌+◌, ◌-◌, ◌<◌, ◌≡◌, refl, ◌∙◌, List, [], ◌∷◌, ◌++◌, map, Mem, Perm, arith, length, All,
}
use miscellaneous.Base.Run.{Yields, yields}
use miscellaneous.Base.Int.{ℤ}
use miscellaneous.Permutation.{perm}
use miscellaneous.Permutation.Arrange.{
  factorial, length-map, arrange, arrange-complete, arrange-perm, length-arrange,
}
use miscellaneous.Permutation.Loops.{perm_lem}

-- The line `l` is `pre` and then a permutation of `piece`.
abbrev pub IsLine : List ℤ → List ℤ → List ℤ → Type 0
IsLine pre piece l = (b : List ℤ) × (l ≡ pre ++ b) × Perm b piece

-- The lines are `pre` and then each permutation of `piece`, one line for each way to order its
-- positions.
pub record Enumerates (pre piece : List ℤ) (lines : List (List ℤ)) : Type 0 where
  pub count : length lines ≡ factorial (length piece)
  pub sound : All (IsLine pre piece) lines
  pub complete : (b : List ℤ) → Perm b piece → Mem (pre ++ b) lines

prefix_sound :
    (pre piece : List ℤ) (ls : List (List ℤ))
    → All (λ l. Perm l piece) ls
    → All (IsLine pre piece) (map (λ l. pre ++ l) ls)
prefix_sound pre piece [] h = tt
prefix_sound pre piece (l ∷ ls) (h, hs) = ((l, refl, h), prefix_sound pre piece ls hs)

pub arrange-Enumerates :
    (pre : List ℤ) (x : ℤ) (ys : List ℤ)
    → Enumerates pre (x ∷ ys) (map (λ l. pre ++ l) (arrange (length ys) (x ∷ ys)))
arrange-Enumerates pre x ys = record {
  count =
      length-map (λ l. pre ++ l) (arrange (length ys) (x ∷ ys))
      ∙ length-arrange (length ys) (x ∷ ys) refl;
  sound = prefix_sound pre (x ∷ ys) _ (arrange-perm (length ys) (x ∷ ys) refl);
  complete = λ b p. mem-map_of_mem (λ l. pre ++ l) (arrange-complete (length ys) (x ∷ ys) b refl p);
}

-- `perm` on the indices of a piece that is not empty ends without a fault, leaves the array as it
-- was, and prints for each permutation of the piece the entries before the piece and the
-- permutation, and nothing else: n! lines for n entries.
pub perm-Enumerates :
    (pre piece post : List ℤ)
    → 0 < length piece
    → Yields
        (λ p. (p.array ≡ pre ++ (piece ++ post)) × Enumerates pre piece p.lines)
        (perm (pre ++ (piece ++ post)) (length pre) (length pre + (length piece - 1)))
perm-Enumerates pre [] post h = absurd (omega arith)
perm-Enumerates pre (x ∷ ys) post h =
    let last : length (x ∷ ys) - 1 ≡ length ys = omega arith in
    rw (last, perm_lem pre x ys post) (yields (refl, arrange-Enumerates pre x ys))
