-- ===== src/PriorityQueue/Sink.antt =====
-- struct_and_algo/priority_queue.cpp: `sink` ends, reads no entry out of bounds, does not overflow
-- and restores the heap.
use mathlib.Core.List.Perm
use miscellaneous.Base.{
  ℕ, zero, suc, ◌+◌, ◌-◌, ◌*◌, ◌^◌, ◌≤◌, ◌<◌, ◌≡◌, ◌≢◌, ◌⊎◌, List, arith, ltb, lt→ltb, leb, length,
}
use miscellaneous.Base.Run.{Yields, yields, Yields-bind, Yields-test}
use miscellaneous.Base.Array.{Swapped, swap-Swapped}
use miscellaneous.PriorityQueue.{Comparable, parent, larger_child, sink_loop, sink}
use miscellaneous.PriorityQueue.Order.{
  rank_at, IsBridged, Heaped, rank_at-swap, less_at-lem, at_least_at-lem, Heaped-swap,
}

module _ {ℓ} {A : Type ℓ} ⦃c : Comparable A⦄ where
  -- Only the children of `i` may rank higher than their parent.
  pub record Sinking (a : List A) (i : ℕ) : Type ℓ where
    pub ordered : (k : ℕ) → 0 < k → k < length a → parent k ≢ i → rank_at a k ≤ rank_at a (parent k)
    pub bridged : IsBridged a i

  -- `m` is the child of `i` with the highest rank.
  pub record IsLarger (a : List A) (i m : ℕ) : Type ℓ where
    pub inside : m < length a
    pub child : (m ≡ 2 * i + 1) ⊎ (m ≡ 2 * i + 2)
    pub greatest : (k : ℕ) → 0 < k → k < length a → parent k ≡ i → rank_at a k ≤ rank_at a m

  larger_child-IsLarger :
      (a : List A) (i : ℕ)
      → length a ≤ 2 ^ 30
      → 2 * i + 1 < length a
      → Yields (IsLarger a i) (larger_child a (2 * i + 1))
  unfolding larger_child
  larger_child-IsLarger a i n h =
      Yields-test (ltb (2 * i + 1) (length a - 1))
        (λ two.
          let hj : 2 * i + 1 + 1 < length a = ground arith in
          rw
            (
              lt→ltb (2 * i + 1 + 1) (2 ^ 31) (omega arith),
              less_at-lem a (2 * i + 1) (2 * i + 1 + 1) h hj,
            )
            (yields (record {
              inside = ground arith;
              child = ground arith;
              greatest = λ k p q r. grind arith;
            })))
        (λ one.
          yields (record { inside = h; child = omega arith; greatest = λ k p q r. grind arith }))

  Sinking-swap :
      (a b : List A) (i m : ℕ)
      → Sinking a i
      → IsLarger a i m
      → rank_at a i < rank_at a m
      → Swapped a i m b
      → Sinking b m
  Sinking-swap a b i m v g below s =
      let at = rank_at-swap s in
      let size = s.size in
      record {
        ordered = λ k p q r.
            ground
              (arith, size, at k, at (parent k), v.ordered k, v.bridged m, g.greatest k, g.child);
        bridged = λ k p q r t. ground (arith, size, at k, at (parent m), v.ordered k, g.child);
      }

  sink_loop_restores :
      (fuel : ℕ) (a : List A) (i : ℕ)
      → length a ≤ 2 ^ 30
      → i < 2 ^ 30
      → length a - i < fuel
      → Sinking a i
      → Yields (Heaped a) (sink_loop fuel a i)
  unfolding sink_loop
  sink_loop_restores zero a i n hi f v = elim f [ ]
  sink_loop_restores (suc fuel) a i n hi f v = rw (lt→ltb (2 * i + 1) (2 ^ 31) (omega arith)) (
      Yields-test (ltb (2 * i + 1) (length a))
        (λ inner. Yields-bind (larger_child-IsLarger a i n (ground arith)) λ m g.
          let here : i < length a = ground arith in
          rw (at_least_at-lem a i m here g.inside) (
            Yields-test (leb (rank_at a m) (rank_at a i))
              (λ settled. yields (λ k p q. ground (arith, v.ordered k, g.greatest k), Perm.rfl))
              (λ below. Yields-bind (swap-Swapped a i m here g.inside) λ b s. Heaped-swap s (
                sink_loop_restores fuel b m (omega (arith, s.size)) (omega (arith, g.inside))
                  (omega (arith, s.size, g.child)) (Sinking-swap a b i m v g (ground arith) s)))))
        (λ leaf. yields (λ k p q. ground (arith, v.ordered k), Perm.rfl)))

  pub sink_restores :
      (a : List A) (i : ℕ)
      → length a ≤ 2 ^ 30
      → i < 2 ^ 30
      → Sinking a i
      → Yields (Heaped a) (sink a i)
  unfolding sink
  sink_restores a i n hi v = sink_loop_restores (length a + 1) a i n hi (omega arith) v
