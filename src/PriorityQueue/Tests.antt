-- ===== src/PriorityQueue/Tests.antt =====
-- struct_and_algo/priority_queue.cpp: runs of `main` and of the theorems.
use miscellaneous.Base.{ℕ, ◌≡◌, refl, [], ◌∷◌, Perm, arith}
use miscellaneous.Base.Run.{ok, ◌>>=◌, Yields}
use miscellaneous.PriorityQueue.{PriorityQueue, nat_comparable, push, pop, drain, push_all, main}
use miscellaneous.PriorityQueue.Order.{rank_at}
use miscellaneous.PriorityQueue.Methods.{IsValid, Holds, Popped, push_correct, pop_correct}
use miscellaneous.PriorityQueue.Drain.{IsDescending, heap_sort}

main_prints : main ≡ ok (3 ∷ 2 ∷ 1 ∷ [], 4 ∷ 5 ∷ 3 ∷ 2 ∷ 1 ∷ [])
unfolding main
main_prints = refl

abbrev three : PriorityQueue ℕ
three = record { heap = 7 ∷ 3 ∷ 5 ∷ [] }

three-IsValid : IsValid three
unfolding rank_at
three-IsValid = grind arith

push_correct_example : Yields (Holds (9 ∷ three.heap)) (push 9 three)
push_correct_example = push_correct 9 three three-IsValid (omega arith)

pop_correct_example : Yields (Popped three) (pop three)
pop_correct_example = pop_correct three three-IsValid (omega arith) (omega arith)

abbrev nothing : PriorityQueue ℕ
nothing = record { heap = [] }

heap_sort_example :
    Yields
      (λ (out, r). IsDescending out × Perm out (4 ∷ 8 ∷ 6 ∷ []) × (r.heap ≡ []))
      (push_all (4 ∷ 8 ∷ 6 ∷ []) nothing >>= drain)
heap_sort_example = heap_sort (4 ∷ 8 ∷ 6 ∷ []) (omega arith)
