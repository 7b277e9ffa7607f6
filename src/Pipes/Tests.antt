-- ===== src/Pipes/Tests.antt =====
-- ipcCode/pipes: runs of the reader, of `is_prime` and of the theorems.
use miscellaneous.Base.{ℕ, ◌+◌, ◌*◌, ◌%◌, ◌^◌, ◌≡◌, refl, arith, true, false, some, List, [], ◌∷◌}
use miscellaneous.Base.Run.{ok, Yields}
use miscellaneous.Pipes.{u32, is_prime, whole, other, end_of_stream, reader_main, writer_main}
use miscellaneous.Pipes.Prime.{Answers, is_prime-Answers, is_prime_denies_last}
use miscellaneous.Pipes.Fifo.{Primes, stream, reader_main-writer_main}

primes_found :
    reader_main 8000 true (whole 7 ∷ other ∷ whole 25 ∷ whole 49 ∷ whole 2 ∷ end_of_stream ∷ [])
    ≡ ok (some (record { total = 4; primes_count = 2 }))
unfolding reader_main is_prime
primes_found = refl

is_prime-Answers_example : Yields (Answers 1000003) (is_prime 8000 1000003)
is_prime-Answers_example = is_prime-Answers 8000 1000003 (omega arith) (omega arith)

is_prime_denies_last_example : Yields (λ b. b ≡ false) (is_prime 715827883 4294967291)
is_prime_denies_last_example =
    is_prime_denies_last 715827883 4294967291 (omega arith) (omega arith) (omega arith)

-- A generator of random numbers, by its state.
abbrev generator : ℕ → ℕ × ℕ
generator s = (s % 2 ^ 31, s * 5 + 1)

reader_main-writer_main_example :
    (ints : List ℕ) × (sent : ℕ) × (writer_main generator true 1 ≡ some (ints, sent))
    × Yields
        (λ out.
          (k : ℕ) × Primes ints k × (out ≡ some (record { total = sent; primes_count = u32 k })))
        (reader_main 8000 true (stream ints))
reader_main-writer_main_example =
    reader_main-writer_main generator (λ s. omega arith) 8000 1 (omega arith)
