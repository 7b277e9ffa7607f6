-- ===== src/Pipes.antt =====
-- ipcCode/pipes: the writer and the reader of a named pipe, and a pipe between two processes.
-- An `unsigned` is a number below 2^32 whose arithmetic wraps.
pub mod Prime
pub mod Fifo
mod Tests
use miscellaneous.Base.{
  ℕ, zero, suc, ◌+◌, ◌*◌, ◌%◌, ◌^◌, List, [], ◌∷◌, ◌++◌, Option, none, some, Bool, true, false,
  ◌||◌, ltb, leb, ◌==◌, if◌then◌else◌,
}
use miscellaneous.Base.Run.{Run, ok, out_of_fuel, ◌>>=◌}

abbrev pub u32 : ℕ → ℕ
u32 x = x % 2 ^ 32

abbrev pub divides : ℕ → ℕ → Bool
divides d n = n % d == 0

-- `for (i = 5; (i * i) <= n; i += 6)`
pub prime_loop : ℕ → ℕ → ℕ → Run Bool
prime_loop zero n i = out_of_fuel
prime_loop (suc fuel) n i =
    let rest = prime_loop fuel n (u32 (i + 6)) in
    if leb (u32 (i * i)) n
    then (if divides i n || divides (u32 (i + 2)) n then ok false else rest)
    else ok true

unfoldable pub is_prime : ℕ → ℕ → Run Bool
unfolding prime_loop
is_prime fuel n =
    if leb n 3
    then ok (ltb 1 n)
    else if divides 2 n || divides 3 n
    then ok false
    else prime_loop fuel n 5

-- What a call of `read` for the bytes of an `int` ends with: the end of the stream, all four bytes, or
-- anything else (fewer bytes, or an error).
pub data Reading : Type 0 where
  end_of_stream : Reading
  whole : ℕ → Reading
  other : Reading

-- The variables `total` and `primes_count` of the reader.
pub record Counts : Type 0 where
  pub total : ℕ
  pub primes_count : ℕ

-- The reader's `while (1)`, over what its calls of `read` end with.
pub read_loop : ℕ → List Reading → Counts → Run Counts
read_loop fuel [] c = out_of_fuel
read_loop fuel (end_of_stream ∷ rs) c = ok c
read_loop fuel (other ∷ rs) c = read_loop fuel rs c
read_loop fuel (whole next ∷ rs) c = do
  prime ← is_prime fuel next
  let count = if prime then u32 (c.primes_count + 1) else c.primes_count
  read_loop fuel rs (record { total = u32 (c.total + 1); primes_count = count })

-- `main` of the reader, for a pipe that can be opened or not: what it prints, unless it returns -1.
unfoldable pub reader_main : ℕ → Bool → List Reading → Run (Option Counts)
unfolding read_loop
reader_main fuel false rs = ok none
reader_main fuel true rs = do
  c ← read_loop fuel rs (record { total = 0; primes_count = 0 })
  ok (some c)

abbrev pub max_loops : ℕ
max_loops = 12000

abbrev pub chunk_size : ℕ
chunk_size = 16

abbrev pub ints_per_chunk : ℕ
ints_per_chunk = 4

-- `rand` gives a number and changes the state of the generator.
module _ {S : Type 0} (rand : S → ℕ × S) where
  -- `chunk[k] = rand();`
  pub fill_chunk : ℕ → S → List ℕ × S
  fill_chunk zero s = ([], s)
  fill_chunk (suc n) s = let (r, s₁) = rand s in let (rs, s₂) = fill_chunk n s₁ in (r ∷ rs, s₂)

  -- The loop over `j`: what is written to the pipe.
  pub write_chunks : ℕ → S → List ℕ × S
  write_chunks zero s = ([], s)
  write_chunks (suc n) s =
      let (chunk, s₁) = fill_chunk ints_per_chunk s in
      let (rest, s₂) = write_chunks n s₁ in (chunk ++ rest, s₂)

  -- The loop over `i`; the time to sleep takes a random number too.
  pub write_loops : ℕ → S → List ℕ × S
  write_loops zero s = ([], s)
  write_loops (suc n) s =
      let (chunks, s₁) = write_chunks chunk_size s in
      let (rest, s₂) = write_loops n ((rand s₁).1) in (chunks ++ rest, s₂)

  -- `main` of the writer, for a pipe that can be opened or not: what it writes, and the number that it
  -- prints, unless it returns -1.
  unfoldable pub writer_main : Bool → S → Option (List ℕ × ℕ)
  unfolding write_loops write_chunks fill_chunk
  writer_main false s = none
  writer_main true s = some ((write_loops max_loops s).0, max_loops * chunk_size * ints_per_chunk)
