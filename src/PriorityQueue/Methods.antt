-- ===== src/PriorityQueue/Methods.antt =====
-- struct_and_algo/priority_queue.cpp: what `push`, `top` and `pop` do to a heap.
use mathlib.Core.List.Perm
use mathlib.Core.List.{perm_append_singleton, mem-cons_self}
use mathlib.Core.Path.{subst}
use miscellaneous.Base.{
  ℕ, zero, suc, ◌-◌, ◌≤◌, ◌<◌, ◌^◌, ◌≡◌, refl, ap, ◌∙◌, List, [], ◌∷◌, ◌++◌, some, Mem, Perm, arith,
  length, lt→ltb, length-append, get_elem?, take,
}
use miscellaneous.Base.Run.{ok, fault, Yields, yields, Yields-bind}
use miscellaneous.Base.Array.{get_elem?-lt, length-perm}
use miscellaneous.PriorityQueue.{Comparable, PriorityQueue, int_of_size, parent, push, pop, top}
use miscellaneous.PriorityQueue.Order.{
  rank_at, IsHeap, rank_at-append, rank_at-take, rank_at-root, rank_at-zero, root_greatest,
}
use miscellaneous.PriorityQueue.Swim.{Rising, swim_restores}
use miscellaneous.PriorityQueue.Sink.{Sinking, sink_restores}

int_of_size-lem : (n : ℕ) → n < 2 ^ 31 → int_of_size n ≡ n
int_of_size-lem n h = ground arith

module _ {ℓ} {A : Type ℓ} ⦃c : Comparable A⦄ where
  abbrev pub IsValid : PriorityQueue A → Type 0
  IsValid q = IsHeap q.heap

  -- `r` is a valid queue of exactly the values `a`.
  abbrev pub Holds : List A → PriorityQueue A → Type ℓ
  Holds a r = IsValid r × Perm r.heap a

  append-Rising : (a : List A) (k : A) → IsHeap a → Rising (a ++ k ∷ []) (length a)
  append-Rising a k h =
      let size = length-append a (k ∷ []) in
      record {
        inside = omega (arith, size);
        ordered = λ n p q r.
            ground
              (arith, size, h n, rank_at-append a (k ∷ []) n, rank_at-append a (k ∷ []) (parent n));
        bridged = λ n p q r t. absurd (omega (arith, size));
      }

  -- `push` on a heap of fewer than 2^30 values neither faults nor loops, and leaves a heap of the old
  -- values and the new one.
  pub push_correct :
      (k : A) (q : PriorityQueue A)
      → IsValid q
      → length q.heap < 2 ^ 30
      → Yields (Holds (k ∷ q.heap)) (push k q)
  unfolding push
  push_correct k q v n =
      let size = length-append q.heap (k ∷ []) in
      let at : length (q.heap ++ k ∷ []) - 1 ≡ length q.heap = omega (arith, size) in
      rw (at, int_of_size-lem (length q.heap) (omega arith))
        (Yields-bind (swim_restores (q.heap ++ k ∷ []) _ (append-Rising q.heap k v))
          λ h (heap, same). yields (heap, Perm.trans same (perm_append_singleton k q.heap)))

  take-back :
      (n : ℕ) (a : List A) {x : A}
      → length a ≡ suc n
      → get_elem? a n ≡ some x
      → take n a ++ x ∷ [] ≡ a
  take-back n [] h e = absurd (omega arith)
  take-back zero (y ∷ []) h e = cc
  take-back zero (y ∷ z ∷ a) h e = absurd (omega arith)
  take-back (suc n) (y ∷ a) h e = ap (◌∷◌ y) (take-back n a (omega arith) e)

  -- What `pop` hands to `sink`: the last value has replaced the root.
  abbrev cut : A → List A → A → List A
  cut x a last = take (length a) (last ∷ a)

  cut-perm :
      (x : A) (a : List A) (last : A)
      → get_elem? (x ∷ a) (length a) ≡ some last
      → Perm (x ∷ cut x a last) (x ∷ a)
  cut-perm x [] last e = Perm.rfl
  cut-perm x (y ∷ a) last e =
      let whole = take-back (length a) (y ∷ a) refl e in
      Perm.cons x (rw whole at (Perm.symm (perm_append_singleton last (take (length a) (y ∷ a)))))

  cut-Sinking :
      (x : A) (a : List A) (last : A)
      → get_elem? (x ∷ a) (length a) ≡ some last
      → IsHeap (x ∷ a)
      → Sinking (cut x a last) 0
  cut-Sinking x a last e h =
      let cut-same = cut-perm x a last e in
      record {
        ordered = λ k p q r.
            let inner : k < length a = omega (arith, length-perm cut-same) in
            ground (
              arith,
              h k,
              rank_at-take (length a) (last ∷ a) k inner,
              rank_at-take (length a) (last ∷ a) (parent k) (omega arith),
              rank_at-root x last a k p,
              rank_at-root x last a (parent k) (omega arith),
            );
        bridged = λ k p q r t. elim t [ ];
      }

  -- What `pop` does to the heap `q`: the value that `top` gave is gone, and the rest is a heap.
  pub record Popped (q r : PriorityQueue A) : Type ℓ where
    pub gone : A
    pub was_top : top q ≡ ok gone
    pub valid : IsValid r
    pub same : Perm (gone ∷ r.heap) q.heap

  pop-cons :
      (x : A) (a : List A)
      → IsHeap (x ∷ a)
      → length a < 2 ^ 30
      → Yields (Popped (record { heap = x ∷ a })) (pop (record { heap = x ∷ a }))
  unfolding pop top
  pop-cons x a v n =
      let (last, e) = get_elem?-lt (x ∷ a) (length a) (omega arith) in
      let same = cut-perm x a last e in
      let size = length-perm same in
      let back_at : length (x ∷ a) - 1 ≡ length a = omega arith in
      rw (back_at, e, lt→ltb 0 (length (x ∷ a)) (omega arith))
        (Yields-bind
          (sink_restores (cut x a last) 0 (omega (arith, size)) (omega arith)
            (cut-Sinking x a last e v))
          λ h (heap, perm). yields (record {
            gone = x;
            was_top = refl;
            valid = heap;
            same = Perm.trans (Perm.cons x perm) same;
          }))

  -- `pop` on a heap of 1 to 2^30 values neither faults nor loops; it removes what `top` gives, and
  -- leaves a heap of the other values.
  pub pop_correct :
      (q : PriorityQueue A)
      → IsValid q
      → 0 < length q.heap
      → length q.heap ≤ 2 ^ 30
      → Yields (Popped q) (pop q)
  pop_correct q v h n =
      elim q.heap
          as (λ a.
            IsHeap a
            → 0 < length a
            → length a ≤ 2 ^ 30
            → Yields (Popped (record { heap = a })) (pop (record { heap = a }))) [
              | [] ↦ λ v' h' n'. elim h' [ ]
              | x ∷ a ↦ λ v' h' n'. pop-cons x a v' n'
            ]
        v h n

  rank_at-get : (a : List A) (x : A) → get_elem? a 0 ≡ some x → rank_at a 0 ≡ c.rank x
  rank_at-get [] x e = cc
  rank_at-get (y ∷ a) x e = let e' : y ≡ x = cc in rank_at-zero y a ∙ ap c.rank e'

  mem_of_get : (a : List A) (x : A) → get_elem? a 0 ≡ some x → Mem x a
  mem_of_get [] x e = cc
  mem_of_get (y ∷ a) x e = let e' : y ≡ x = cc in subst (λ z. Mem z (y ∷ a)) e' mem-cons_self

  -- `top` on a heap that is not empty gives one of its values, and no value ranks higher.
  pub top_greatest :
      (q : PriorityQueue A)
      → IsValid q
      → 0 < length q.heap
      → Yields (λ x. Mem x q.heap × ((y : A) → Mem y q.heap → c.rank y ≤ c.rank x)) (top q)
  unfolding top
  top_greatest q v h =
      let (x, e) = get_elem?-lt q.heap 0 h in
      let at : rank_at q.heap 0 ≡ c.rank x = rank_at-get q.heap x e in
      rw e (yields (mem_of_get q.heap x e, λ y m. rw at at (root_greatest q.heap v y m)))

  -- `top` and `pop` on an empty queue are undefined behaviour: neither has a guard.
  pub empty_faults : (q : PriorityQueue A) → q.heap ≡ [] → (top q ≡ fault) × (pop q ≡ fault)
  unfolding top pop
  empty_faults q e = (rw e, rw e)
