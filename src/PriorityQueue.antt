-- ===== src/PriorityQueue.antt =====
-- struct_and_algo/priority_queue.cpp: the binary max-heap `PriorityQueue<T>` and its `main`.
-- `m_heap` is a list; `operator[]`, `back` and `pop_back` of the vector fault where the standard
-- leaves them undefined, and so does `int` arithmetic that overflows.
mod Order
mod Swim
mod Sink
pub mod Methods
pub mod Drain
mod Tests
use miscellaneous.Base.{
  ℕ, zero, suc, ◌+◌, ◌-◌, ◌*◌, ◌/◌, ◌%◌, ◌^◌, ◌≡◌, refl, Bool, List, [], ◌∷◌, ◌++◌, ltb, leb, ◌==◌,
  if◌then◌else◌, length,
}
use miscellaneous.Base.Run.{Run, ok, out_of_fuel, ◌>>=◌, ◌>>◌, require}
use miscellaneous.Base.Array.{read, write, swap, back, pop_back}

-- What the template asks of `T`: its `<` and `>=` compare the values by one ranking.
pub record Comparable {ℓ} (A : Type ℓ) : Type ℓ where
  pub rank : A → ℕ
  pub less : A → A → Bool
  pub at_least : A → A → Bool
  pub less_lem : (x y : A) → less x y ≡ ltb (rank x) (rank y)
  pub at_least_lem : (x y : A) → at_least x y ≡ leb (rank y) (rank x)

pub record PriorityQueue {ℓ} (A : Type ℓ) : Type ℓ where
  pub heap : List A

-- The conversion of `m_heap.size() - 1` to the parameter `int pos`. A negative `pos` does not enter
-- the loop of `swim`, as 0 does not.
abbrev pub int_of_size : ℕ → ℕ
int_of_size n = if ltb (n % 2 ^ 32) (2 ^ 31) then n % 2 ^ 32 else 0

-- The result of `int` arithmetic.
abbrev pub int : ℕ → Run ℕ
int n = require (ltb n (2 ^ 31)) >> ok n

abbrev pub parent : ℕ → ℕ
parent pos = (pos - 1) / 2

module _ {ℓ} {A : Type ℓ} ⦃c : Comparable A⦄ where
  -- `m_heap[i] < m_heap[j]` and `m_heap[i] >= m_heap[j]`
  pub less_at : List A → ℕ → ℕ → Run Bool
  less_at a i j = do x ← read a i; y ← read a j; ok (c.less x y)

  pub at_least_at : List A → ℕ → ℕ → Run Bool
  at_least_at a i j = do x ← read a i; y ← read a j; ok (c.at_least x y)

  pub swim_loop : ℕ → List A → ℕ → Run (List A)
  swim_loop zero a pos = out_of_fuel
  swim_loop (suc fuel) a pos =
      let rise = swap a (parent pos) pos >>= λ b. swim_loop fuel b (parent pos) in
      let round = less_at a (parent pos) pos >>= λ smaller. if smaller then rise else ok a in
      if ltb 0 pos then round else ok a

  unfoldable pub swim : List A → ℕ → Run (List A)
  unfolding swim_loop less_at read swap
  swim a pos = swim_loop (pos + 1) a pos

  -- The choice of `i` in a round of `sink`: the larger of the two children.
  pub larger_child : List A → ℕ → Run ℕ
  larger_child a i =
      let right = do
        next ← int (i + 1)
        smaller ← less_at a i next
        ok (if smaller then next else i)
      in if ltb i (length a - 1) then right else ok i

  pub sink_loop : ℕ → List A → ℕ → Run (List A)
  sink_loop zero a pos = out_of_fuel
  sink_loop (suc fuel) a pos = do
    left ← int (2 * pos + 1)
    let round : Run (List A) = do
      i ← larger_child a left
      let fall = swap a pos i >>= λ b. sink_loop fuel b i
      settled ← at_least_at a pos i
      if settled then ok a else fall
    if ltb left (length a) then round else ok a

  unfoldable pub sink : List A → ℕ → Run (List A)
  unfolding sink_loop larger_child less_at at_least_at read swap
  sink a pos = sink_loop (length a + 1) a pos

  unfoldable pub push : A → PriorityQueue A → Run (PriorityQueue A)
  unfolding swim
  push k q = do
    let grown = q.heap ++ k ∷ []
    h ← swim grown (int_of_size (length grown - 1))
    ok (record { heap = h })

  unfoldable pub pop : PriorityQueue A → Run (PriorityQueue A)
  unfolding sink read back write pop_back
  pop q = do
    last ← back q.heap
    moved ← write q.heap 0 last
    shorter ← pop_back moved
    h ← sink shorter 0
    ok (record { heap = h })

module _ {ℓ} {A : Type ℓ} where
  unfoldable pub top : PriorityQueue A → Run A
  unfolding read
  top q = read q.heap 0

  unfoldable pub empty : PriorityQueue A → Bool
  empty q = length q.heap == 0

module _ {ℓ} {A : Type ℓ} ⦃c : Comparable A⦄ where
  -- `while (!queue.empty()) { std::cout << queue.top() << " "; queue.pop(); }` of `main`, with what
  -- has been printed.
  pub drain_loop : ℕ → PriorityQueue A → List A → Run (List A × PriorityQueue A)
  drain_loop zero q out = out_of_fuel
  drain_loop (suc fuel) q out =
      let round : Run (List A × PriorityQueue A) = do
        x ← top q
        rest ← pop q
        drain_loop fuel rest (out ++ x ∷ [])
      in if empty q then ok (out, q) else round

  unfoldable pub drain : PriorityQueue A → Run (List A × PriorityQueue A)
  unfolding drain_loop pop top empty
  drain q = drain_loop (length q.heap + 1) q []

  -- A row of calls of `push`.
  unfoldable pub push_all : List A → PriorityQueue A → Run (PriorityQueue A)
  unfolding push
  push_all [] q = ok q
  push_all (x ∷ xs) q = push x q >>= push_all xs

-- The values that `main` stores are not negative: they rank as themselves.
instance abbrev pub nat_comparable : Comparable ℕ
nat_comparable = record {
  rank = λ n. n;
  less = ltb;
  at_least = λ x y. leb y x;
  less_lem = λ x y. refl;
  at_least_lem = λ x y. refl;
}

-- The two lines that `main` prints.
unfoldable pub main : Run (List ℕ × List ℕ)
unfolding push_all drain
main = do
  q₁ ← push_all (1 ∷ 2 ∷ 3 ∷ []) (record { heap = [] })
  (first, q₂) ← drain q₁
  q₃ ← push_all (2 ∷ 3 ∷ 4 ∷ []) q₂
  x ← top q₃
  q₄ ← pop q₃
  q₅ ← push_all (5 ∷ 1 ∷ []) q₄
  (rest, _) ← drain q₅
  ok (first, x ∷ rest)
