-- ===== src/Permutation/Split.antt =====
-- struct_and_algo/permutation.cpp: `printPermutation` and `permutation`.
use mathlib.Core.List.{append-nil, append_assoc, mem-cons_self, mem-cons_of_mem}
use mathlib.Core.List.Perm
use mathlib.Core.HLevel.{¬_prop}
use miscellaneous.Base.{
  ℕ, zero, suc, ◌+◌, ◌-◌, ◌*◌, ◌^◌, ◌<◌, ◌≡◌, ◌≢◌, refl, sym, ap, ◌∙◌, List, [], ◌∷◌, ◌++◌, Mem,
  some, false, lt→ltb, ◌==◌, arith, length, length-append, get_elem?, set, All, All-append,
  Option-cases, Bool-cases, inl, inr,
}
use miscellaneous.Base.Run.{Run, ok, ◌>>=◌, Yields, yields, Yields-value, bind_congr, bind_assoc}
use miscellaneous.Base.Array.{swap, length-perm}
use miscellaneous.Base.Int.{ℤ, eqb_ℤ, eqb_ℤ_iff}
use miscellaneous.Permutation.{
  Printed, printed, perm_rounds, perm_fuel, perm, read_upto, Pushed, pushed, delimiter,
  print_rounds, print_fuel, print_permutation, split_lines, permutation,
}
use miscellaneous.Permutation.Arrange.{factorial, All-mem}
use miscellaneous.Permutation.Enumerate.{IsLine, Enumerates, perm-Enumerates}

module _ {ℓ} {A : Type ℓ} where
  set_comm :
      (a : List A) (i j : ℕ) (x y : A)
      → get_elem? a i ≡ some x
      → get_elem? a j ≡ some y
      → set (set a i y) j x ≡ set (set a j x) i y
  set_comm [] i j x y p q = refl
  set_comm (z ∷ a) zero zero x y p q = let e : x ≡ y = cc in rw e
  set_comm (z ∷ a) zero (suc j) x y p q = refl
  set_comm (z ∷ a) (suc i) zero x y p q = refl
  set_comm (z ∷ a) (suc i) (suc j) x y p q = ap (◌∷◌ z) (set_comm a i j x y p q)

  swap_comm : (a : List A) (i j : ℕ) → swap a i j ≡ swap a j i
  unfolding swap
  swap_comm a i j = elim (Option-cases (get_elem? a i)) [
    | inl p ↦ elim (Option-cases (get_elem? a j)) [ inl q ↦ rw (p, q) | inr (y, q) ↦ rw (p, q) ]
    | inr (x, p) ↦ elim (Option-cases (get_elem? a j)) [
      | inl q ↦ rw (p, q)
      | inr (y, q) ↦ rw (p, q, set_comm a i j x y p q)
    ]
  ]

-- The lines as `printPermutation` appends them.
pub flat : List (List ℤ) → List ℤ
flat [] = []
flat (l ∷ ls) = l ++ delimiter ∷ flat ls

flat-append : (ls ms : List (List ℤ)) → flat (ls ++ ms) ≡ flat ls ++ flat ms
unfolding flat
flat-append [] ms = refl
flat-append (l ∷ ls) ms =
    rw (flat-append ls ms) (sym (append_assoc l (delimiter ∷ flat ls) (flat ms)))

-- The outcome of `printPermutation` for that of `perm`.
abbrev push : List ℤ → Printed → Run Pushed
push out p = ok (pushed p.array (out ++ flat p.lines))

print_rounds-lem :
    (r : List ℤ → Run Printed) (s : List ℤ → List ℤ → Run Pushed)
    → ((b out : List ℤ) → s b out ≡ (r b >>= push out))
    → (n i low : ℕ) (a out : List ℤ)
    → print_rounds s n i low a out ≡ (perm_rounds r n i low a >>= push out)
unfolding print_rounds perm_rounds
print_rounds-lem r s h zero i low a out =
    ap (λ o. ok (pushed a o)) (unfold flat in sym (append-nil out))
print_rounds-lem r s h (suc n) i low a out =
    rw (swap_comm a low i, bind_assoc)
      (bind_congr (swap a i low) λ b.
        rw (h b out, bind_assoc, bind_assoc)
          (bind_congr (r b) λ inner.
            rw (swap_comm inner.array low i, bind_assoc)
              (bind_congr (swap inner.array i low) λ c.
                rw (print_rounds-lem r s h n (suc i) low c (out ++ flat inner.lines), bind_assoc)
                  (bind_congr (perm_rounds r n (suc i) low c) λ rest.
                    ap (λ o. ok (pushed rest.array o))
                      (rw flat-append (append_assoc out (flat inner.lines) (flat rest.lines)))))))

print_fuel-lem :
    (fuel low high : ℕ) (a out : List ℤ)
    → print_fuel fuel a low high out ≡ (perm_fuel fuel a low high >>= push out)
unfolding print_fuel perm_fuel
print_fuel-lem zero low high a out = refl
print_fuel-lem (suc fuel) low high a out = elim (Bool-cases (low == high)) [
  | inl e ↦ rw e (
      rw bind_assoc (
        bind_congr (read_upto (suc low) 0 a)
          λ xs. ap (λ o. ok (pushed a o)) (unfold flat in append_assoc out xs (delimiter ∷ []))))
  | inr e ↦ rw e (print_rounds-lem _ _ (λ b o. print_fuel-lem fuel (suc low) high b o) _ _ _ _ _)
]

-- `printPermutation` appends to `output` what `perm` prints, each line followed by the delimiter,
-- and leaves the array as `perm` does; it faults where `perm` does.
pub print_permutation_lem :
    (input : List ℤ) (left right : ℕ) (output : List ℤ)
    → print_permutation input left right output
      ≡ (perm input left right >>= λ p. ok (pushed p.array (output ++ flat p.lines)))
unfolding print_permutation perm
print_permutation_lem input left right output = print_fuel-lem _ left right input output

abbrev pub NoDelimiter : List ℤ → Type 0
NoDelimiter = All (λ x. x ≢ delimiter)

split-line :
    (l rest piece : List ℤ) (res : List (List ℤ))
    → NoDelimiter l
    → split_lines (l ++ delimiter ∷ rest) piece res ≡ split_lines rest [] (res ++ (piece ++ l) ∷ [])
unfolding split_lines
split-line [] rest piece res h = rw append-nil
split-line (x ∷ l) rest piece res (h, hs) =
    let keep : eqb_ℤ x delimiter ≡ false = elim (Bool-cases (eqb_ℤ x delimiter)) [
      | inl e ↦ absurd (h ((eqb_ℤ_iff x delimiter).0 e))
      | inr e ↦ e
    ] in
    rw keep (rw append_assoc at (split-line l rest (piece ++ x ∷ []) res hs))

split-flat :
    (ls res : List (List ℤ)) → All NoDelimiter ls → split_lines (flat ls) [] res ≡ res ++ ls
unfolding flat
split-flat [] res h = unfold split_lines in sym (append-nil res)
split-flat (l ∷ ls) res (h, hs) =
    rw (split-line l (flat ls) [] res h, split-flat ls (res ++ l ∷ []) hs)
      (append_assoc res (l ∷ []) ls)

length-flat :
    (k : ℕ) (ls : List (List ℤ)) → All (λ l. length l ≡ k) ls → length (flat ls) ≡ length ls * suc k
unfolding flat
length-flat k [] h = omega arith
length-flat k (l ∷ ls) (h, hs) =
    omega (arith, length-append l (delimiter ∷ flat ls), length-flat k ls hs)

NoDelimiter-mem : (xs : List ℤ) → ((x : ℤ) → Mem x xs → x ≢ delimiter) → NoDelimiter xs
NoDelimiter-mem [] h = tt
NoDelimiter-mem (x ∷ xs) h =
    (h x mem-cons_self, NoDelimiter-mem xs λ y m. h y (mem-cons_of_mem x m))

module _ (pre piece : List ℤ) where
  line-NoDelimiter :
      NoDelimiter pre → NoDelimiter piece → (l : List ℤ) → IsLine pre piece l → NoDelimiter l
  line-NoDelimiter hp hq l (b, e, p) = rw e (
      All-append (λ x. x ≢ delimiter) pre b hp
        (NoDelimiter-mem b λ x m. All-mem (λ y. ¬_prop) piece hq x ((Perm.mem_iff p).0 m)))

  line-length : (l : List ℤ) → IsLine pre piece l → length l ≡ length pre + length piece
  line-length l (b, e, p) = rw e (omega (arith, length-append pre b, length-perm p))

All-weaken {κ μ} :
    {P : List ℤ → Type κ} (Q : List ℤ → Type μ) (ls : List (List ℤ))
    → ((l : List ℤ) → P l → Q l)
    → All P ls
    → All Q ls
All-weaken Q [] k h = tt
All-weaken Q (l ∷ ls) k (h, hs) = (k l h, All-weaken Q ls k hs)

-- `permutation` on the indices of a piece that is not empty returns the very lines, in their order,
-- that `perm` prints for the same arguments, and these are the piece's n! arrangements behind the
-- entries before it, provided that no entry up to the end of the piece is -999 and that `oneLine`
-- has fewer than 2^31 entries.
pub permutation-Enumerates :
    (pre piece post : List ℤ)
    → 0 < length piece
    → NoDelimiter pre
    → NoDelimiter piece
    → factorial (length piece) * (length pre + length piece + 1) < 2 ^ 31
    → Yields
        (λ ls.
          (perm (pre ++ (piece ++ post)) (length pre) (length pre + (length piece - 1))
            ≡ ok (printed (pre ++ (piece ++ post)) ls))
          × Enumerates pre piece ls)
        (permutation (pre ++ (piece ++ post)) (length pre) (length pre + (length piece - 1)))
unfolding permutation
permutation-Enumerates pre piece post h hp hq n =
    let (p, e, (kept, lines)) = Yields-value (perm-Enumerates pre piece post h) in
    let size =
      length-flat (length pre + length piece) p.lines
        (All-weaken _ p.lines (line-length pre piece) lines.sound) in
    let fits : length (flat p.lines) < 2 ^ 31 = rw (size, lines.count) (omega arith) in
    let same = e ∙ ap (λ a. ok (printed a p.lines)) kept in
    rw
      (
        print_permutation_lem,
        e,
        lt→ltb _ _ fits,
        split-flat p.lines [] (All-weaken _ p.lines (line-NoDelimiter pre piece hp hq) lines.sound),
      )
      (yields (sym e ∙ same, lines))
