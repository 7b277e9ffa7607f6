-- ===== src/Permutation/Arrange.antt =====
-- struct_and_algo/permutation.cpp: the arrangements of a list, in the order of the source.
use mathlib.Core.List.Perm
use mathlib.Core.List.{
  mem-cons, append_assoc, mem-append_left, mem-append_right, mem-map_of_mem, mem-cons_of_mem,
  not-mem-nil, mem-cons_self, perm_middle, Mem-prop, Perm-prop, forall_mem-cons,
}
use mathlib.Core.Logic.{∥∥₁_elim, ∥∥₁_map}
use mathlib.Core.Logic.Or
use miscellaneous.Base.{
  ℕ, zero, suc, ◌*◌, ◌≡◌, refl, ap, ◌∙◌, List, [], ◌∷◌, ◌++◌, map, Mem, Perm, arith, length,
  length-append, All, All-append,
}
use miscellaneous.Base.Array.{length-perm}

pub All-mem {ℓ κ} :
    {B : Type ℓ} {P : B → Type κ}
    → ((b : B) → IsProp (P b))
    → (xs : List B) → All P xs
    → (b : B) → Mem b xs
    → P b
All-mem prop [] h = λ b m. absurd (not-mem-nil m)
All-mem prop (x ∷ xs) (h, hs) = (forall_mem-cons prop).1 (h, All-mem prop xs hs)

unfoldable pub factorial : ℕ → ℕ
factorial zero = 1
factorial (suc n) = suc n * factorial n

pub length-map {ℓ κ} :
    {A : Type ℓ} {B : Type κ} (f : A → B) (xs : List A) → length (map f xs) ≡ length xs
length-map f [] = refl
length-map f (x ∷ xs) = ap suc (length-map f xs)

module _ {ℓ} {A : Type ℓ} where
  -- The lists that come of exchanging the head `x` with an entry of `vs`, `us` lying between.
  unfoldable pub picks_from : A → List A → List A → List (A × List A)
  picks_from x us [] = []
  picks_from x us (y ∷ vs) = (y, us ++ x ∷ vs) ∷ picks_from x (us ++ y ∷ []) vs

  unfoldable pub picks : A → List A → List (A × List A)
  picks x ys = (x, ys) ∷ picks_from x [] ys

  -- Every arrangement that begins with a given entry.
  unfoldable pub arrange_each : (List A → List (List A)) → List (A × List A) → List (List A)
  arrange_each arrange [] = []
  arrange_each arrange ((y, ys) ∷ ps) = map (◌∷◌ y) (arrange ys) ++ arrange_each arrange ps

  -- For lists of `n + 1` entries.
  unfoldable pub arrange : ℕ → List A → List (List A)
  arrange zero xs = xs ∷ []
  arrange (suc n) [] = []
  arrange (suc n) (x ∷ ys) = arrange_each (arrange n) (picks x ys)

  -- What is left with an entry picked is a rearrangement of the list.
  picks_from-perm :
      (x : A) (us vs : List A) → All (λ p. Perm (p.0 ∷ p.1) (x ∷ (us ++ vs))) (picks_from x us vs)
  unfolding picks_from
  picks_from-perm x us [] = tt
  picks_from-perm x us (y ∷ vs) = (
    Perm.trans (Perm.cons y (perm_middle us vs))
        (Perm.trans (Perm.swap x y (us ++ vs)) (Perm.cons x (Perm.symm (perm_middle us vs)))),
    rw append_assoc at (picks_from-perm x (us ++ y ∷ []) vs),
  )

  picks-perm : (x : A) (ys : List A) → All (λ p. Perm (p.0 ∷ p.1) (x ∷ ys)) (picks x ys)
  unfolding picks
  picks-perm x ys = (Perm.refl (x ∷ ys), picks_from-perm x [] ys)

  -- Every entry is picked.
  picks_from-mem :
      (x z : A) (us vs : List A) → Mem z vs → ∥ ((r : List A) × Mem (z, r) (picks_from x us vs)) ∥₁
  unfolding picks_from
  picks_from-mem x z us [] m = absurd (not-mem-nil m)
  picks_from-mem x z us (y ∷ vs) m =
      Or.elim squash₁ (mem-cons.0 m) (λ e. ∣ (us ++ x ∷ vs, rw e mem-cons_self) ∣₁)
        (λ m'. ∥∥₁_map (picks_from-mem x z (us ++ y ∷ []) vs m') λ (r, h). (r, mem-cons_of_mem _ h))

  picks-mem :
      (x z : A) (ys : List A) → Mem z (x ∷ ys) → ∥ ((r : List A) × Mem (z, r) (picks x ys)) ∥₁
  unfolding picks
  picks-mem x z ys m =
      Or.elim squash₁ (mem-cons.0 m) (λ e. ∣ (ys, rw e mem-cons_self) ∣₁)
        (λ m'. ∥∥₁_map (picks_from-mem x z [] ys m') λ (r, h). (r, mem-cons_of_mem _ h))

  arrange_each-mem :
      (f : List A → List (List A)) (ps : List (A × List A)) (z : A) (r l : List A)
      → Mem (z, r) ps
      → Mem l (f r)
      → Mem (z ∷ l) (arrange_each f ps)
  unfolding arrange_each
  arrange_each-mem f [] z r l m h = absurd (not-mem-nil m)
  arrange_each-mem f ((y, ys) ∷ ps) z r l m h =
      Or.elim Mem-prop (mem-cons.0 m)
        (λ e.
          let head = ap (λ (p : A × List A). p.0) e in
          let rest = ap (λ (p : A × List A). p.1) e in
          rw head (mem-append_left _ (mem-map_of_mem (◌∷◌ y) (rw rest at h))))
        (λ m'. mem-append_right _ (arrange_each-mem f ps z r l m' h))

  -- Every arrangement is a line.
  pub arrange-complete :
      (n : ℕ) (xs b : List A) → length xs ≡ suc n → Perm b xs → Mem b (arrange n xs)
  unfolding arrange
  arrange-complete n xs [] size p = absurd (omega (arith, length-perm p))
  arrange-complete n [] (z ∷ b) size p = absurd (omega arith)
  arrange-complete zero (x ∷ []) (z ∷ []) size p =
      Or.elim Mem-prop (mem-cons.0 ((Perm.mem_iff p).0 mem-cons_self)) (λ e. rw e mem-cons_self)
        (λ m. absurd (not-mem-nil m))
  arrange-complete zero (x ∷ y ∷ xs) (z ∷ b) size p = absurd (omega arith)
  arrange-complete zero (x ∷ []) (z ∷ w ∷ b) size p = absurd (omega (arith, length-perm p))
  arrange-complete (suc n) (x ∷ ys) (z ∷ b) size p =
      ∥∥₁_elim (picks-mem x z ys ((Perm.mem_iff p).0 mem-cons_self)) Mem-prop λ (r, m).
        let same = All-mem (λ q. Perm-prop) _ (picks-perm x ys) (z, r) m in
        let rest = Perm.cons_inv (Perm.trans p (Perm.symm same)) in
        arrange_each-mem (arrange n) (picks x ys) z r b m
          (arrange-complete n r b (omega (arith, length-perm same)) rest)

  -- Every line is an arrangement.
  All-map {κ} :
      {P : List A → Type κ} (Q : List A → Type κ) (f : List A → List A) (xs : List (List A))
      → ((l : List A) → P l → Q (f l))
      → All P xs
      → All Q (map f xs)
  All-map Q f [] k h = tt
  All-map Q f (x ∷ xs) k (h, hs) = (k x h, All-map Q f xs k hs)

  arrange_each-perm :
      (n : ℕ) (xs : List A) (ps : List (A × List A))
      → ((ys : List A) → length ys ≡ suc n → All (λ l. Perm l ys) (arrange n ys))
      → length xs ≡ suc (suc n)
      → All (λ p. Perm (p.0 ∷ p.1) xs) ps
      → All (λ l. Perm l xs) (arrange_each (arrange n) ps)
  unfolding arrange_each
  arrange_each-perm n xs [] ih size h = tt
  arrange_each-perm n xs ((y, ys) ∷ ps) ih size (h, hs) =
      All-append (λ l. Perm l xs) (map (◌∷◌ y) (arrange n ys)) (arrange_each (arrange n) ps)
        (All-map (λ l. Perm l xs) (◌∷◌ y) (arrange n ys) (λ l p. Perm.trans (Perm.cons y p) h)
          (ih ys (omega (arith, length-perm h))))
        (arrange_each-perm n xs ps ih size hs)

  pub arrange-perm : (n : ℕ) (xs : List A) → length xs ≡ suc n → All (λ l. Perm l xs) (arrange n xs)
  unfolding arrange
  arrange-perm zero xs size = (Perm.refl xs, tt)
  arrange-perm (suc n) [] size = tt
  arrange-perm (suc n) (x ∷ ys) size =
      arrange_each-perm n (x ∷ ys) (picks x ys) (arrange-perm n) size (picks-perm x ys)

  picks_from-length : (x : A) (us vs : List A) → length (picks_from x us vs) ≡ length vs
  unfolding picks_from
  picks_from-length x us [] = refl
  picks_from-length x us (y ∷ vs) = ap suc (picks_from-length x (us ++ y ∷ []) vs)

  arrange_each-length :
      (k : ℕ) (f : List A → List (List A)) (xs : List A) (ps : List (A × List A))
      → ((ys : List A) → suc (length ys) ≡ length xs → length (f ys) ≡ k)
      → All (λ p. Perm (p.0 ∷ p.1) xs) ps
      → length (arrange_each f ps) ≡ length ps * k
  unfolding arrange_each
  arrange_each-length k f xs [] ih h = omega arith
  arrange_each-length k f xs ((y, ys) ∷ ps) ih (h, hs) = omega (
    arith,
    length-append (map (◌∷◌ y) (f ys)) (arrange_each f ps),
    length-map (◌∷◌ y) (f ys),
    ih ys (length-perm h),
    arrange_each-length k f xs ps ih hs,
  )

  -- There are as many lines as the factorial of the number of entries.
  pub length-arrange :
      (n : ℕ) (xs : List A) → length xs ≡ suc n → length (arrange n xs) ≡ factorial (suc n)
  unfolding arrange picks factorial
  length-arrange zero xs size = refl
  length-arrange (suc n) [] size = absurd (omega arith)
  length-arrange (suc n) (x ∷ ys) size =
      arrange_each-length (factorial (suc n)) (arrange n) (x ∷ ys) (picks x ys)
        (λ zs e. length-arrange n zs (omega arith)) (picks-perm x ys)
      ∙ ap (λ (k : ℕ). k * factorial (suc n)) (ap suc (picks_from-length x [] ys) ∙ size)
