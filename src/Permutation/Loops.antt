-- ===== src/Permutation/Loops.antt =====
-- struct_and_algo/permutation.cpp: what the loops of `perm` do to an array.
use mathlib.Core.List.{append_assoc, map-append}
use miscellaneous.Base.{
  ℕ, zero, suc, ◌+◌, ◌-◌, ◌<◌, ◌≡◌, refl, sym, ap, ◌∙◌, List, [], ◌∷◌, ◌++◌, map, some, true, false,
  ◌==◌, arith, length, length-append, get_elem?, set,
}
use miscellaneous.Base.Run.{Run, ok}
use miscellaneous.Base.Array.{read, swap}
use miscellaneous.Base.Int.{ℤ}
use miscellaneous.Permutation.{Printed, printed, read_upto, perm_rounds, perm_fuel, perm}
use miscellaneous.Permutation.Arrange.{picks_from, picks, arrange_each, arrange}

module _ {ℓ} {A : Type ℓ} where
  get_elem?-middle :
      (us : List A) (x : A) (vs : List A) → get_elem? (us ++ x ∷ vs) (length us) ≡ some x
  get_elem?-middle [] x vs = refl
  get_elem?-middle (u ∷ us) x vs = get_elem?-middle us x vs

  set-middle :
      (us : List A) (x : A) (vs : List A) (v : A) → set (us ++ x ∷ vs) (length us) v ≡ us ++ v ∷ vs
  set-middle [] x vs v = refl
  set-middle (u ∷ us) x vs v = ap (◌∷◌ u) (set-middle us x vs v)

  -- Exchanging the entry behind `us` with the one behind `us`, `x` and `vs`.
  pub swap-middle :
      (us : List A) (x : A) (vs : List A) (y : A) (ws : List A) (i : ℕ)
      → i ≡ length us + suc (length vs)
      → swap (us ++ x ∷ (vs ++ y ∷ ws)) i (length us) ≡ ok (us ++ y ∷ (vs ++ x ∷ ws))
  unfolding swap
  swap-middle us x vs y ws i e = rw (get, get_elem?-middle, put, set-middle)
    where
      far : i ≡ length (us ++ x ∷ vs)
      far = omega (arith, e, length-append us (x ∷ vs))

      get : get_elem? (us ++ x ∷ (vs ++ y ∷ ws)) i ≡ some y
      get = rw (far, ← append_assoc us (x ∷ vs) (y ∷ ws)) (get_elem?-middle (us ++ x ∷ vs) y ws)

      put : set (us ++ x ∷ (vs ++ y ∷ ws)) i x ≡ us ++ x ∷ (vs ++ x ∷ ws)
      put =
          rw (far, ← append_assoc us (x ∷ vs) (y ∷ ws), set-middle (us ++ x ∷ vs) y ws x)
            (append_assoc us (x ∷ vs) (x ∷ ws))

  pub swap-here :
      (us : List A) (x : A) (vs : List A)
      → swap (us ++ x ∷ vs) (length us) (length us) ≡ ok (us ++ x ∷ vs)
  unfolding swap
  swap-here us x vs = rw (get_elem?-middle, set-middle, set-middle)

pub read_upto-append :
    (us vs ws : List ℤ) (i n : ℕ)
    → i ≡ length us
    → n ≡ length vs
    → read_upto n i (us ++ (vs ++ ws)) ≡ ok vs
unfolding read_upto read
read_upto-append us [] ws i n e s = rw s
read_upto-append us (v ∷ vs) ws i n e s =
    let get : get_elem? (us ++ v ∷ (vs ++ ws)) i ≡ some v =
      rw e (get_elem?-middle us v (vs ++ ws)) in
    let next : suc i ≡ length (us ++ v ∷ []) = omega (arith, e, length-append us (v ∷ [])) in
    let rest =
      rw append_assoc at (read_upto-append (us ++ v ∷ []) vs ws (suc i) (length vs) next refl) in
    rw (s, get, rest)

-- The recursive call puts every line of `f` behind `pre` and one more entry, and restores the array.
abbrev pub PutsLines :
    (List ℤ → Run Printed) → (List ℤ → List (List ℤ)) → List ℤ → List ℤ → ℕ → Type 0
PutsLines recurse f pre post m =
    (b : List ℤ) (y : ℤ) (zs : List ℤ)
    → length zs ≡ m
    → b ≡ pre ++ y ∷ (zs ++ post)
    → recurse b ≡ ok (printed b (map (λ l. pre ++ y ∷ l) (f zs)))

map-prefix :
    (pre : List ℤ) (y : ℤ) (ls : List (List ℤ))
    → map (λ l. pre ++ y ∷ l) ls ≡ map (λ l. pre ++ l) (map (◌∷◌ y) ls)
map-prefix pre y [] = refl
map-prefix pre y (l ∷ ls) = ap (◌∷◌ (pre ++ y ∷ l)) (map-prefix pre y ls)

module _ (recurse : List ℤ → Run Printed) (f : List ℤ → List (List ℤ)) (pre post : List ℤ) (m : ℕ)
    (puts : PutsLines recurse f pre post m) where
  perm_rounds-lem :
      (x : ℤ) (us vs : List ℤ) (i : ℕ) (a : List ℤ)
      → length us + length vs ≡ m
      → i ≡ length pre + suc (length us)
      → a ≡ pre ++ x ∷ (us ++ (vs ++ post))
      → perm_rounds recurse (length vs) i (length pre) a
        ≡ ok (printed a (map (λ l. pre ++ l) (arrange_each f (picks_from x us vs))))
  unfolding perm_rounds arrange_each picks_from
  perm_rounds-lem x us [] i a size hi e = refl
  perm_rounds-lem x us (y ∷ vs) i a size hi e =
      let b : List ℤ = pre ++ y ∷ (us ++ x ∷ (vs ++ post)) in
      let here = f (us ++ x ∷ vs) in
      let others = arrange_each f (picks_from x (us ++ y ∷ []) vs) in
      let there : swap a i (length pre) ≡ ok b = rw e (swap-middle pre x us y (vs ++ post) i hi) in
      let back : swap b i (length pre) ≡ ok a = rw e (swap-middle pre y us x (vs ++ post) i hi) in
      let longer = length-append us (y ∷ []) in
      let rest =
        perm_rounds-lem x (us ++ y ∷ []) vs (suc i) a (omega (arith, longer))
          (omega (arith, longer)) (e ∙ simp append_assoc) in
      rw
        (
          there,
          puts b y (us ++ x ∷ vs) (omega (arith, length-append us (x ∷ vs))) (simp append_assoc),
          back,
          rest,
        )
        (ap (λ ls. ok (printed a ls))
          (ap (λ ls. ls ++ map (λ l. pre ++ l) others) (map-prefix pre y here)
            ∙ sym (map-append (λ l. pre ++ l) (map (◌∷◌ y) here) others)))

-- The first round exchanges an entry with itself.
perm_rounds-first :
    (recurse : List ℤ → Run Printed) (n low : ℕ) (a : List ℤ) (here others : List (List ℤ))
    → swap a low low ≡ ok a
    → recurse a ≡ ok (printed a here)
    → perm_rounds recurse n (suc low) low a ≡ ok (printed a others)
    → perm_rounds recurse (suc n) low low a ≡ ok (printed a (here ++ others))
unfolding perm_rounds
perm_rounds-first recurse n low a here others s r o = rw (s, r, s, o)

-- With enough fuel, `perm` lists the arrangements of `x ∷ ys`, each behind `pre`.
abbrev PermLines : ℕ → Type 0
PermLines fuel =
    (pre : List ℤ) (x : ℤ) (ys post : List ℤ) (low high : ℕ) (a : List ℤ)
    → length ys < fuel
    → low ≡ length pre
    → high ≡ length pre + length ys
    → a ≡ pre ++ x ∷ (ys ++ post)
    → perm_fuel fuel a low high
      ≡ ok (printed a (map (λ l. pre ++ l) (arrange (length ys) (x ∷ ys))))

recurse-PutsLines :
    (fuel : ℕ) (pre post : List ℤ) (low high n : ℕ)
    → PermLines fuel
    → n < fuel
    → low ≡ length pre
    → high ≡ length pre + suc n
    → PutsLines (λ b. perm_fuel fuel b (suc low) high) (arrange n) pre post (suc n)
recurse-PutsLines fuel pre post low high n ih f hl hh b y [] size e = absurd (omega arith)
recurse-PutsLines fuel pre post low high n ih f hl hh b y (z ∷ zs) size e =
    let longer = length-append pre (y ∷ []) in
    let same : length zs ≡ n = omega arith in
    simp (append_assoc, same) at
      (ih (pre ++ y ∷ []) z zs post (suc low) high b (omega arith) (omega (arith, longer))
        (omega (arith, longer)) (e ∙ simp append_assoc))

perm_fuel-lem : (fuel : ℕ) → PermLines fuel
unfolding perm_fuel arrange picks arrange_each
perm_fuel-lem zero pre x ys post low high a f hl hh e = elim f [ ]
perm_fuel-lem (suc fuel) pre x [] post low high a f hl hh e =
    let last : (low == high) ≡ true = ground arith in
    let line : read_upto (suc low) 0 a ≡ ok (pre ++ x ∷ []) = rw e (
      rw append_assoc at (
        read_upto-append [] (pre ++ x ∷ []) post 0 (suc low) refl
          (omega (arith, hl, length-append pre (x ∷ []))))) in
    rw (last, line)
perm_fuel-lem (suc fuel) pre x (y ∷ ys) post low high a f hl hh e =
    let n = length ys in
    let more : (low == high) ≡ false = ground arith in
    let count : suc high - low ≡ suc (suc n) = omega (arith, hl, hh) in
    let puts =
      recurse-PutsLines fuel pre post low high n (perm_fuel-lem fuel) (omega arith) hl hh in
    let here = arrange n (y ∷ ys) in
    let others = arrange_each (arrange n) (picks_from x [] (y ∷ ys)) in
    let rest =
      perm_rounds-lem _ (arrange n) pre post (suc n) puts x [] (y ∷ ys) (suc low) a (omega arith)
        (omega (arith, hl)) e in
    rw (more, count)
      (perm_rounds-first _ (suc n) low a (map (λ l. pre ++ x ∷ l) here) (map (λ l. pre ++ l) others)
          (rw (e, hl) (swap-here pre x ((y ∷ ys) ++ post))) (puts a x (y ∷ ys) refl e)
          (rw (← hl) at rest)
        ∙ ap (λ ls. ok (printed a ls))
            (ap (λ ls. ls ++ map (λ l. pre ++ l) others) (map-prefix pre x here)
              ∙ sym (map-append (λ l. pre ++ l) (map (◌∷◌ x) here) others)))

-- `perm` on a piece of an array that is not empty: the lines are the arrangements of the piece.
pub perm_lem :
    (pre : List ℤ) (x : ℤ) (ys post : List ℤ)
    → perm (pre ++ x ∷ (ys ++ post)) (length pre) (length pre + length ys)
      ≡ ok (printed (pre ++ x ∷ (ys ++ post)) (map (λ l. pre ++ l) (arrange (length ys) (x ∷ ys))))
unfolding perm
perm_lem pre x ys post = perm_fuel-lem _ pre x ys post _ _ _ (omega arith) refl refl refl
