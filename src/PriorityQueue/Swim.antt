-- ===== src/PriorityQueue/Swim.antt =====
-- struct_and_algo/priority_queue.cpp: `swim` ends, reads no entry out of bounds and restores the heap.
use mathlib.Core.List.Perm
use miscellaneous.Base.{ℕ, zero, suc, ◌+◌, ◌≤◌, ◌<◌, ◌≢◌, List, arith, ltb, length}
use miscellaneous.Base.Run.{Yields, yields, Yields-bind, Yields-test}
use miscellaneous.Base.Array.{Swapped, swap-Swapped}
use miscellaneous.PriorityQueue.{Comparable, parent, swim_loop, swim}
use miscellaneous.PriorityQueue.Order.{
  rank_at, IsBridged, Heaped, rank_at-swap, less_at-lem, Heaped-swap,
}

module _ {ℓ} {A : Type ℓ} ⦃c : Comparable A⦄ where
  -- Only the entry at `i` may rank higher than its parent.
  pub record Rising (a : List A) (i : ℕ) : Type ℓ where
    pub inside : i < length a
    pub ordered : (k : ℕ) → 0 < k → k < length a → k ≢ i → rank_at a k ≤ rank_at a (parent k)
    pub bridged : IsBridged a i

  Rising-swap :
      (a b : List A) (i : ℕ)
      → Rising a i
      → 0 < i
      → rank_at a (parent i) < rank_at a i
      → Swapped a (parent i) i b
      → Rising b (parent i)
  Rising-swap a b i v up below s =
      let at = rank_at-swap s in
      let size = s.size in
      record {
        inside = omega (arith, size, v.inside);
        ordered = λ k p q r. ground (arith, size, at k, at (parent k), v.ordered k, v.bridged k);
        bridged = λ k p q r t.
            ground (arith, size, at k, at (parent (parent i)), v.ordered k, v.ordered (parent i));
      }

  swim_loop_restores :
      (fuel : ℕ) (a : List A) (i : ℕ)
      → i < fuel
      → Rising a i
      → Yields (Heaped a) (swim_loop fuel a i)
  unfolding swim_loop
  swim_loop_restores zero a i f v = elim f [ ]
  swim_loop_restores (suc fuel) a i f v =
      let above : parent i < length a = omega (arith, v.inside) in
      rw (less_at-lem a (parent i) i above v.inside) (
        Yields-test (ltb 0 i)
          (λ up.
            Yields-test (ltb (rank_at a (parent i)) (rank_at a i))
              (λ below. Yields-bind (swap-Swapped a (parent i) i above v.inside) λ b s.
                Heaped-swap s (
                  swim_loop_restores fuel b (parent i) (ground arith)
                    (Rising-swap a b i v (ground arith) (ground arith) s)))
              (λ settled. yields (λ k p q. ground (arith, v.ordered k), Perm.rfl)))
          (λ root. yields (λ k p q. v.ordered k p q (ground arith), Perm.rfl)))

  pub swim_restores : (a : List A) (i : ℕ) → Rising a i → Yields (Heaped a) (swim a i)
  unfolding swim
  swim_restores a i v = swim_loop_restores (i + 1) a i (omega arith) v
