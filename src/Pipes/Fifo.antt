-- ===== src/Pipes/Fifo.antt =====
-- ipcCode/pipes/fifoWriter.c and fifoReader.c: what is written, what is counted, and both together.
use miscellaneous.Base.{
  ℕ, zero, suc, ◌+◌, ◌*◌, ◌^◌, ◌<◌, ◌≤◌, ◌≡◌, refl, ap, ◌∙◌, arith, Bool, true, false, some, List,
  [], ◌∷◌, ◌++◌, length, length-append, All, All-append, if◌then◌else◌,
}
use miscellaneous.Base.Run.{Yields, yields, Yields-bind, Yields-weaken}
use miscellaneous.Pipes.{
  u32, Reading, end_of_stream, whole, Counts, read_loop, reader_main, max_loops, fill_chunk,
  write_chunks, write_loops, writer_main,
}
use miscellaneous.Pipes.Prime.{IsPrime, Answers, is_prime-Answers}

-- `k` of the numbers are prime.
pub data Primes : List ℕ → ℕ → Type 0 where
  nothing : Primes [] 0
  prime : {n k : ℕ} {ns : List ℕ} → IsPrime n → Primes ns k → Primes (n ∷ ns) (suc k)
  composite : {n k : ℕ} {ns : List ℕ} → Answers n false → Primes ns k → Primes (n ∷ ns) k

-- The stream of whole numbers, then its end.
abbrev pub stream : List ℕ → List Reading
stream [] = end_of_stream ∷ []
stream (n ∷ ns) = whole n ∷ stream ns

abbrev pub IsInt : ℕ → Type 0
IsInt n = n < 2 ^ 31

-- The counters after the numbers `ns`, from `c` on.
abbrev Counted : List ℕ → Counts → Counts → Type 0
Counted ns c c' =
    (k : ℕ) × Primes ns k
    × (c'.total ≡ u32 (c.total + length ns))
    × (c'.primes_count ≡ u32 (c.primes_count + k))

Counted-step :
    (n : ℕ) (ns : List ℕ) (c : Counts) (b : Bool)
    → Answers n b
    → (c' : Counts)
    → Counted ns
        (record {
          total = u32 (c.total + 1);
          primes_count = if b then u32 (c.primes_count + 1) else c.primes_count;
        })
        c'
    → Counted (n ∷ ns) c c'
Counted-step n ns c true a c' (k, p, t, q) = (suc k, prime a p, omega (arith, t), omega (arith, q))
Counted-step n ns c false a c' (k, p, t, q) = (k, composite a p, omega (arith, t), omega (arith, q))

counter_bound : (b : Bool) (q : ℕ) → q < 2 ^ 32 → (if b then u32 (q + 1) else q) < 2 ^ 32
counter_bound true q h = omega arith
counter_bound false q h = h

read_loop-Counted :
    (fuel : ℕ) (ns : List ℕ) (c : Counts)
    → 8000 ≤ fuel
    → All IsInt ns
    → c.total < 2 ^ 32
    → c.primes_count < 2 ^ 32
    → Yields (Counted ns c) (read_loop fuel (stream ns) c)
unfolding read_loop
read_loop-Counted fuel [] c enough small t q =
    yields (0, nothing, omega (arith, t), omega (arith, q))
read_loop-Counted fuel (n ∷ ns) c enough (small, rest) t q =
    Yields-bind (is_prime-Answers fuel n enough small) λ b a.
      Yields-weaken (Counted-step n ns c b a)
        (read_loop-Counted fuel ns _ enough rest (omega arith) (counter_bound b c.primes_count q))

same_counts :
    (c : Counts) {t q : ℕ}
    → c.total ≡ t
    → c.primes_count ≡ q
    → c ≡ record { total = t; primes_count = q }
same_counts c h g = λ i. record { total = h i; primes_count = g i }

-- The reader, on a pipe that gives whole numbers of type `int` that are not negative, and then ends:
-- it ends, and prints how many numbers there were and how many of them are prime, both modulo 2^32;
-- 8000 rounds are enough for `is_prime`.
pub reader_main-counts :
    (fuel : ℕ) (ns : List ℕ)
    → 8000 ≤ fuel
    → All IsInt ns
    → Yields
        (λ out.
          (k : ℕ) × Primes ns k
          × (out ≡ some (record { total = u32 (length ns); primes_count = u32 k })))
        (reader_main fuel true (stream ns))
unfolding reader_main
reader_main-counts fuel ns enough small =
    Yields-bind (read_loop-Counted fuel ns _ enough small (omega arith) (omega arith))
      λ c (k, p, t, q). yields (k, p, ap some (same_counts c (omega (arith, t)) (omega (arith, q))))

joined :
    (xs ys : List ℕ) {m n k : ℕ} → length xs ≡ m → length ys ≡ n → m + n ≡ k → length (xs ++ ys) ≡ k
joined xs ys p q h = length-append xs ys ∙ omega (arith, p, q, h)

all_sent : (n : ℕ) → n ≡ 12000 * 64 → u32 n ≡ 768000
all_sent n h = omega (arith, h)

module _ {S : Type 0} (rand : S → ℕ × S) (bounded : (s : S) → IsInt ((rand s).0)) where
  fill_chunk-writes :
      (n : ℕ) (s : S) → (length ((fill_chunk rand n s).0) ≡ n) × All IsInt ((fill_chunk rand n s).0)
  unfolding fill_chunk
  fill_chunk-writes zero s = (refl, tt)
  fill_chunk-writes (suc n) s =
      let (size, ints) = fill_chunk-writes n ((rand s).1) in (ap suc size, (bounded s, ints))

  write_chunks-writes :
      (n : ℕ) (s : S)
      → (length ((write_chunks rand n s).0) ≡ n * 4) × All IsInt ((write_chunks rand n s).0)
  unfolding write_chunks
  write_chunks-writes zero s = (refl, tt)
  write_chunks-writes (suc n) s =
      let (size, ints) = fill_chunk-writes 4 s in
      let (size', ints') = write_chunks-writes n ((fill_chunk rand 4 s).1) in
      (joined _ _ size size' (omega arith), All-append IsInt _ _ ints ints')

  write_loops-writes :
      (n : ℕ) (s : S)
      → (length ((write_loops rand n s).0) ≡ n * 64) × All IsInt ((write_loops rand n s).0)
  unfolding write_loops
  write_loops-writes zero s = (refl, tt)
  write_loops-writes (suc n) s =
      let (size, ints) = write_chunks-writes 16 s in
      let (size', ints') = write_loops-writes n ((rand ((write_chunks rand 16 s).1)).1) in
      (joined _ _ size size' (omega arith), All-append IsInt _ _ ints ints')

  -- The writer and the reader together, when `rand` gives numbers of type `int` that are not negative
  -- and the pipe passes on what is written, in whole numbers: the reader prints the number of ints that
  -- the writer prints as sent, and how many of those written are prime.
  pub reader_main-writer_main :
      (fuel : ℕ) (s : S)
      → 8000 ≤ fuel
      → (ints : List ℕ) × (sent : ℕ) × (writer_main rand true s ≡ some (ints, sent))
        × Yields
            (λ out.
              (k : ℕ) × Primes ints k
              × (out ≡ some (record { total = sent; primes_count = u32 k })))
            (reader_main fuel true (stream ints))
  unfolding writer_main
  reader_main-writer_main fuel s enough =
      let (size, small) = write_loops-writes max_loops s in
      let total = all_sent _ size in
      (
        _,
        _,
        refl,
        Yields-weaken
            (λ out (k, p, h).
              (k, p, h ∙ ap (λ t. some (record { total = t; primes_count = u32 k })) total))
            (reader_main-counts fuel _ enough small),
      )
