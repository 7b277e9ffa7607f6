-- ===== src/Ipc/SharedMemory.antt =====
-- ipcCode/shmem/memwriter.c and memreader.c: two processes that share memory, and a semaphore, which
-- is a parameter. Opening it is taken to succeed: the programs compare a failed sem_open with (void*) -1,
-- which it never gives, and would go on with a null pointer. A turn runs one process up to its next access to what is shared; the byte that is
-- copied or printed is one access.
mod Bytes
mod Schedules
mod Live
mod Progress
mod Tests
use miscellaneous.Base.{
  ℕ, zero, suc, ◌+◌, ◌<◌, ◌≡◌, Bool, true, false, ltb, ◌==◌, if◌then◌else◌, Option, none, some,
  List, [], ◌∷◌, ◌++◌, Text, text, char_at, length,
}

abbrev pub mem_contents : Text
mem_contents = text "This is the way the world ends...\n"

-- `wait` has no result while it blocks.
pub record Semaphore (Sem : Type 0) : Type 0 where
  pub value : Sem → ℕ
  pub post : Sem → Sem
  pub wait : Sem → Option Sem
  pub post_lem : (s : Sem) → value (post s) ≡ suc (value s)
  pub wait_lem : (s s' : Sem) → wait s ≡ some s' → suc (value s') ≡ value s

-- Where the writer is: before the memory and the semaphore are open, before the byte of a number is
-- copied, before `sem_post`, after it, or after a call that failed.
pub data Writer : Type 0 where
  creating writer_posting writer_done writer_failed : Writer
  copying : ℕ → Writer

-- Where the reader is: likewise, before the byte of a number is printed.
pub data Reader : Type 0 where
  opening waiting reader_posting reader_done reader_failed : Reader
  printing : ℕ → Reader

pub record State (Sem : Type 0) : Type 0 where
  pub writer : Writer
  pub reader : Reader
  pub memory : ℕ → ℕ
  pub semaphore : Sem
  -- What the reader has written to its standard output.
  pub output : Text
  -- How many bytes it could not write.
  pub unprinted : ℕ

abbrev pub store : (ℕ → ℕ) → ℕ → ℕ → ℕ → ℕ
store memory n c i = if i == n then c else memory i

-- Whether the call of a turn succeeds is a parameter of the turn: at first that of `shm_open` and `mmap`,
-- then `sem_wait`, the `write` of a byte, and `sem_post`.
pub data Turn : Type 0 where
  writer_turn reader_turn : Bool → Turn

module _ {Sem : Type 0} (sem : Semaphore Sem) (contents : Text) where
  -- One more byte, or the end of the loop.
  abbrev pub copy_byte : ℕ → State Sem → State Sem
  copy_byte n s =
      if ltb n (length contents + 1)
      then record s { writer = copying (suc n); memory = store s.memory n (char_at contents n) }
      else record s { writer = writer_posting }

  unfoldable pub write_turn : Bool → Writer → State Sem → State Sem
  write_turn true creating s = record s { writer = copying 0 }
  write_turn false creating s = record s { writer = writer_failed }
  write_turn _ (copying n) s = copy_byte n s
  write_turn true writer_posting s = record s {
    writer = writer_done;
    semaphore = sem.post s.semaphore;
  }
  write_turn false writer_posting s = record s { writer = writer_failed }
  write_turn _ writer_done s = s
  write_turn _ writer_failed s = s

  pub waited : State Sem → Option Sem → State Sem
  waited s none = s
  waited s (some semaphore) = record s { reader = printing 0; semaphore = semaphore }

  -- The `write` of a byte, which is not checked.
  abbrev pub print_byte : Bool → ℕ → State Sem → State Sem
  print_byte true n s =
      if ltb n (length contents)
      then record s { reader = printing (suc n); output = s.output ++ (s.memory n ∷ []) }
      else record s { reader = reader_posting }
  print_byte false n s =
      if ltb n (length contents)
      then record s { reader = printing (suc n); unprinted = suc s.unprinted }
      else record s { reader = reader_posting }

  unfoldable pub read_turn : Bool → Reader → State Sem → State Sem
  unfolding waited
  read_turn true opening s = record s { reader = waiting }
  read_turn false opening s = record s { reader = reader_failed }
  read_turn true waiting s = waited s (sem.wait s.semaphore)
  read_turn false waiting s = record s { reader = reader_done }
  read_turn true (printing n) s = print_byte true n s
  read_turn false (printing n) s = print_byte false n s
  read_turn true reader_posting s = record s {
    reader = reader_done;
    semaphore = sem.post s.semaphore;
  }
  read_turn false reader_posting s = record s { reader = reader_done }
  read_turn _ reader_done s = s
  read_turn _ reader_failed s = s

  abbrev pub take_turn : Turn → State Sem → State Sem
  take_turn (writer_turn ok) s = write_turn ok s.writer s
  take_turn (reader_turn ok) s = read_turn ok s.reader s

  -- The turns in their order.
  unfoldable pub run : List Turn → State Sem → State Sem
  run [] s = s
  run (t ∷ ts) s = run ts (take_turn t s)

-- Both processes before their first call, on memory that is all zero.
abbrev pub start : {Sem : Type 0} → Sem → State Sem
start semaphore = record {
  writer = creating;
  reader = opening;
  memory = λ i. 0;
  semaphore = semaphore;
  output = [];
  unprinted = 0;
}
