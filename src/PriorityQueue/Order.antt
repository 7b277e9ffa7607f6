-- ===== src/PriorityQueue/Order.antt =====
-- struct_and_algo/priority_queue.cpp: the heap order, in terms of the ranks of the entries.
use mathlib.Core.List.Perm
use mathlib.Core.List.{not-mem-nil, forall_mem-cons}
use native.Mathlib.Bridge.{le_prop}
use miscellaneous.Base.{
  ℕ, zero, suc, ◌≤◌, ◌<◌, ◌≡◌, refl, List, [], ◌∷◌, ◌++◌, Option, none, some, Mem, Perm, arith, ltb,
  leb, ◌==◌, if◌then◌else◌, length, get_elem?, take,
}
use miscellaneous.Base.Run.{Run, ok, Yields, Yields-weaken}
use miscellaneous.Base.Array.{read, get_elem?-lt, Swapped}
use miscellaneous.PriorityQueue.{Comparable, parent, less_at, at_least_at}

module _ {ℓ} {A : Type ℓ} ⦃c : Comparable A⦄ where
  abbrev pub rank_or : Option A → ℕ
  rank_or none = 0
  rank_or (some x) = c.rank x

  unfoldable pub rank_at : List A → ℕ → ℕ
  rank_at a i = rank_or (get_elem? a i)

  -- Every entry ranks at most as high as its parent.
  abbrev pub IsHeap : List A → Type 0
  IsHeap a = (k : ℕ) → 0 < k → k < length a → rank_at a k ≤ rank_at a (parent k)

  -- The children of `i` rank at most as high as the parent of `i`.
  abbrev pub IsBridged : List A → ℕ → Type 0
  IsBridged a i =
      (k : ℕ) → 0 < k → k < length a → parent k ≡ i → 0 < i → rank_at a k ≤ rank_at a (parent i)

  -- `b` is a heap of the entries of `a`.
  abbrev pub Heaped : List A → List A → Type ℓ
  Heaped a b = IsHeap b × Perm b a

  pub rank_at-swap :
      {a b : List A} {i j : ℕ}
      → Swapped a i j b
      → (k : ℕ)
      → rank_at b k ≡ (if j == k then rank_at a i else if i == k then rank_at a j else rank_at a k)
  unfolding rank_at
  rank_at-swap s k = ground (arith, s.at k)

  pub read-rank :
      (a : List A) (i : ℕ) → i < length a → Yields (λ x. c.rank x ≡ rank_at a i) (read a i)
  unfolding read rank_at
  read-rank a i h = let (x, e) = get_elem?-lt a i h in rw e (Yields.yields refl)

  module _ (a : List A) (i j : ℕ) (hi : i < length a) (hj : j < length a) where
    pub less_at-lem : less_at a i j ≡ ok (ltb (rank_at a i) (rank_at a j))
    unfolding less_at read rank_at
    less_at-lem =
        let (x, ex) = get_elem?-lt a i hi in
        let (y, ey) = get_elem?-lt a j hj in rw (ex, ey, c.less_lem x y)

    pub at_least_at-lem : at_least_at a i j ≡ ok (leb (rank_at a j) (rank_at a i))
    unfolding at_least_at read rank_at
    at_least_at-lem =
        let (x, ex) = get_elem?-lt a i hi in
        let (y, ey) = get_elem?-lt a j hj in rw (ex, ey, c.at_least_lem x y)

  pub Heaped-swap :
      {a b : List A} {i j : ℕ} {m : Run (List A)}
      → Swapped a i j b
      → Yields (Heaped b) m
      → Yields (Heaped a) m
  Heaped-swap s = Yields-weaken λ h p. (p.0, Perm.trans p.1 s.same)

  pub rank_at-append : (a b : List A) (i : ℕ) → i < length a → rank_at (a ++ b) i ≡ rank_at a i
  unfolding rank_at
  rank_at-append [] b i h = elim h [ ]
  rank_at-append (x ∷ a) b zero h = refl
  rank_at-append (x ∷ a) b (suc i) h = rank_at-append a b i (omega arith)

  pub rank_at-take : (n : ℕ) (a : List A) (i : ℕ) → i < n → rank_at (take n a) i ≡ rank_at a i
  unfolding rank_at
  rank_at-take zero a i h = elim h [ ]
  rank_at-take (suc n) [] i h = refl
  rank_at-take (suc n) (x ∷ a) zero h = refl
  rank_at-take (suc n) (x ∷ a) (suc i) h = rank_at-take n a i (omega arith)

  pub rank_at-root : (x y : A) (a : List A) (k : ℕ) → 0 < k → rank_at (y ∷ a) k ≡ rank_at (x ∷ a) k
  unfolding rank_at
  rank_at-root x y a zero h = elim h [ ]
  rank_at-root x y a (suc k) h = refl

  pub rank_at-zero : (x : A) (a : List A) → rank_at (x ∷ a) 0 ≡ c.rank x
  unfolding rank_at
  rank_at-zero x a = refl

  climb : (n : ℕ) (a : List A) (i : ℕ) → IsHeap a → i < n → i < length a → rank_at a i ≤ rank_at a 0
  climb zero a i h f p = elim f [ ]
  climb (suc n) a i h f p = ground (arith, h i, climb n a (parent i) h)

  rank-le_of_mem :
      (a : List A) (n : ℕ)
      → ((i : ℕ) → i < length a → rank_at a i ≤ n)
      → (x : A) → Mem x a
      → c.rank x ≤ n
  unfolding rank_at
  rank-le_of_mem [] n h = λ x m. absurd (not-mem-nil m)
  rank-le_of_mem (y ∷ a) n h =
      (forall_mem-cons λ x. le_prop).1
        (h 0 (omega arith), rank-le_of_mem a n λ i p. h (suc i) (omega arith))

  -- The root of a heap has the highest rank.
  pub root_greatest : (a : List A) → IsHeap a → (x : A) → Mem x a → c.rank x ≤ rank_at a 0
  root_greatest a h = rank-le_of_mem a (rank_at a 0) λ i p. climb (suc i) a i h (omega arith) p
