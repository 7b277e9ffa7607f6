-- ===== src/PriorityQueue/Drain.antt =====
-- struct_and_algo/priority_queue.cpp: the loop of `main` that prints and removes every value.
use mathlib.Core.List.Perm
use mathlib.Core.List.{Pairwise, perm_middle, append-nil, append_assoc, mem-cons_of_mem}
use miscellaneous.Base.{
  ℕ, zero, suc, ◌+◌, ◌≤◌, ◌<◌, ◌^◌, ◌≡◌, sym, ◌∙◌, List, [], ◌∷◌, ◌++◌, Mem, Perm, arith, length,
  ℕ_discrete, ◌==◌, true, false,
}
use miscellaneous.Base.Run.{
  ◌>>=◌, Yields, yields, Yields-bind, Yields-weaken, Yields-ok, Yields-value,
}
use miscellaneous.Base.Array.{length-perm}
use miscellaneous.PriorityQueue.{Comparable, PriorityQueue, empty, drain_loop, drain, push_all}
use miscellaneous.PriorityQueue.Methods.{
  IsValid, Holds, Popped, push_correct, pop_correct, top_greatest,
}

module _ {ℓ} {A : Type ℓ} ⦃c : Comparable A⦄ where
  abbrev pub IsDescending : List A → Type ℓ
  IsDescending = Pairwise (λ x y. c.rank y ≤ c.rank x)

  -- The loop prints the values that are left, from the highest rank down, and empties the queue.
  abbrev Drained : PriorityQueue A → List A → List A × PriorityQueue A → Type ℓ
  Drained q out r =
      (rest : List A) × (r.0 ≡ out ++ rest) × IsDescending rest × Perm rest q.heap × (r.1.heap ≡ [])

  Popped-greatest :
      {q r : PriorityQueue A}
      → IsValid q
      → 0 < length q.heap
      → (p : Popped q r) → (y : A) → Mem y q.heap
      → c.rank y ≤ c.rank p.gone
  Popped-greatest {q} v h p = (Yields-ok (rw p.was_top at (top_greatest q v h))).1

  drain_loop_correct :
      (fuel : ℕ) (q : PriorityQueue A) (out : List A)
      → length q.heap < fuel
      → length q.heap ≤ 2 ^ 30
      → IsValid q
      → Yields (Drained q out) (drain_loop fuel q out)
  unfolding drain_loop empty
  drain_loop_correct zero q out f n v = elim f [ ]
  drain_loop_correct (suc fuel) q out f n v = elim (ℕ_discrete (length q.heap) 0) [
    | yes e ↦
        let none_left : q.heap ≡ [] = grind arith in
        let stop : (length q.heap == 0) ≡ true = ground arith in
        rw stop (yields ([], sym (append-nil out), Pairwise.nil, rw none_left Perm.rfl, none_left))
    | no e ↦
        let more : 0 < length q.heap = omega arith in
        let (r, popped, p) = Yields-value (pop_correct q v more n) in
        let go : (length q.heap == 0) ≡ false = ground arith in
        rw (go, p.was_top, popped)
          (Yields-weaken
            (λ s (rest, printed, sorted, same, gone).
              let all = Perm.trans (Perm.cons p.gone same) p.same in
              (
                p.gone ∷ rest,
                printed ∙ append_assoc out (p.gone ∷ []) rest,
                Pairwise.cons
                    (λ y m.
                      Popped-greatest v more p y ((Perm.mem_iff all).0 (mem-cons_of_mem p.gone m)))
                    sorted,
                all,
                gone,
              ))
            (drain_loop_correct fuel r (out ++ p.gone ∷ []) (omega (arith, length-perm p.same))
              (omega (arith, length-perm p.same)) p.valid))
  ]

  -- The loop of `main` on a heap of at most 2^30 values ends without a fault, prints the values from
  -- the highest rank down, each as often as the queue held it, and leaves the queue empty.
  pub drain_correct :
      (q : PriorityQueue A)
      → IsValid q
      → length q.heap ≤ 2 ^ 30
      → Yields (λ (out, r). IsDescending out × Perm out q.heap × (r.heap ≡ [])) (drain q)
  unfolding drain
  drain_correct q v n =
      Yields-weaken (λ r (rest, e, sorted, same, gone). (rw e sorted, rw e same, gone))
        (drain_loop_correct (length q.heap + 1) q [] (omega arith) n v)

  push_all_correct :
      (xs : List A) (q : PriorityQueue A)
      → IsValid q
      → length xs + length q.heap ≤ 2 ^ 30
      → Yields (Holds (xs ++ q.heap)) (push_all xs q)
  unfolding push_all
  push_all_correct [] q v n = yields (v, Perm.rfl)
  push_all_correct (x ∷ xs) q v n =
      Yields-bind (push_correct x q v (omega arith)) λ r (valid, same).
        Yields-weaken
          (λ s (valid', same'). (
            valid',
            Perm.trans same' (Perm.trans (Perm.append_left xs same) (perm_middle xs q.heap)),
          ))
          (push_all_correct xs r valid (omega (arith, length-perm same)))

  -- Pushing at most 2^30 values on an empty queue and running the loop of `main` sorts them: it
  -- prints them from the highest rank down.
  pub heap_sort :
      (xs : List A)
      → length xs ≤ 2 ^ 30
      → Yields
          (λ (out, r). IsDescending out × Perm out xs × (r.heap ≡ []))
          (push_all xs (record { heap = [] }) >>= drain)
  heap_sort xs n =
      Yields-bind
        (push_all_correct xs (record { heap = [] }) (λ k p q. absurd (omega arith)) (omega arith))
        λ q (valid, same).
          let same' = rw append-nil at same in
          Yields-weaken (λ r (sorted, perm, gone). (sorted, Perm.trans perm same', gone))
            (drain_correct q valid (omega (arith, length-perm same')))
