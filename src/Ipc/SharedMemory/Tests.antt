-- ===== src/Ipc/SharedMemory/Tests.antt =====
-- ipcCode/shmem: a semaphore that is a number, and runs of the two processes.
use miscellaneous.Base.{
  ◌<◌, ◌≢◌, arith, ℕ, zero, suc, ◌≡◌, refl, sym, ap, true, Option, none, some, List, [], ◌∷◌, ◌++◌,
  text,
}
use miscellaneous.Ipc.SharedMemory.{
  mem_contents, Semaphore, reader_done, Turn, writer_turn, reader_turn, write_turn, read_turn,
  waited, run, start,
}
use miscellaneous.Ipc.SharedMemory.Progress.{Who, writes, reads, all_ok, run_shows_all}

abbrev take_one : ℕ → Option ℕ
take_one zero = none
take_one (suc n) = some n

took_one : (s s' : ℕ) → take_one s ≡ some s' → suc s' ≡ s
took_one zero s' eq = absurd (cc eq)
took_one (suc n) s' eq = ap suc (sym (cc eq))

abbrev number : Semaphore ℕ
number = record {
  value = λ s. s;
  post = suc;
  wait = take_one;
  post_lem = λ s. refl;
  wait_lem = took_one;
}

abbrev turns : ℕ → Turn → List Turn
turns zero t = []
turns (suc n) t = t ∷ turns n t

-- The reader has to wait, then prints a string of two bytes.
prints_all :
    (run number
      (text "hi")
      (turns 3 (reader_turn true) ++ turns 6 (writer_turn true) ++ turns 5 (reader_turn true))
      (start 0)).output
    ≡ text "hi"
unfolding run write_turn read_turn waited
prints_all = refl

abbrev times : ℕ → Who → List Who
times zero w = []
times (suc n) w = w ∷ times n w

number_ready : (y : ℕ) → 0 < y → take_one y ≢ none
number_ready zero h eq = absurd (omega (arith, h))
number_ready (suc y) h eq = absurd (cc eq)

run_shows_all_example :
    ((run number mem_contents
        (all_ok (times 40 reads))
        (run number mem_contents (all_ok (reads ∷ times 40 writes)) (start 0))).reader
      ≡ reader_done)
    × ((run number mem_contents
          (all_ok (times 40 reads))
          (run number mem_contents (all_ok (reads ∷ times 40 writes)) (start 0))).output
        ≡ mem_contents)
run_shows_all_example =
    run_shows_all number 0 (reads ∷ times 40 writes) (times 40 reads) number_ready refl
      (omega arith) (omega arith)
