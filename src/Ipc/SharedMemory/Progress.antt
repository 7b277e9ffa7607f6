-- ===== src/Ipc/SharedMemory/Progress.antt =====
-- ipcCode/shmem: when no call fails, both processes get to their ends.
use miscellaneous.Base.{
  ℕ, suc, ◌+◌, ◌<◌, ◌≤◌, ◌≡◌, ◌≢◌, refl, inl, inr, arith, true, none, List, [], ◌∷◌, Text, length,
}
use miscellaneous.Ipc.SharedMemory.{
  mem_contents, Semaphore, Writer, creating, copying, writer_posting, writer_done, writer_failed,
  Reader, opening, waiting, printing, reader_posting, reader_done, reader_failed, State, Turn,
  writer_turn, reader_turn, run, start,
}
use miscellaneous.Ipc.SharedMemory.Schedules.{Inv, start-Inv, write_turn-Inv, read_turn-Inv}
use miscellaneous.Ipc.SharedMemory.Live.{
  WriterAt, AtLeast, Before, UpAt, Live, write_turn-Live, read_turn-Live,
}

-- Whose turn it is, when no call fails.
pub data Who : Type 0 where
  writes reads : Who

abbrev pub all_ok : List Who → List Turn
all_ok [] = []
all_ok (writes ∷ ws) = writer_turn true ∷ all_ok ws
all_ok (reads ∷ ws) = reader_turn true ∷ all_ok ws

abbrev pub writer_turns : List Who → ℕ
writer_turns [] = 0
writer_turns (writes ∷ ws) = suc (writer_turns ws)
writer_turns (reads ∷ ws) = writer_turns ws

abbrev pub reader_turns : List Who → ℕ
reader_turns [] = 0
reader_turns (writes ∷ ws) = reader_turns ws
reader_turns (reads ∷ ws) = suc (reader_turns ws)

module _ (contents : Text) {Sem : Type 0} (sem : Semaphore Sem)
    (ready : (x : Sem) → 0 < sem.value x → sem.wait x ≢ none) where
  -- While the writer may still be at work.
  first_turns :
      (ws : List Who) (k m : ℕ) (s : State Sem)
      → writer_turns ws + k ≡ m
      → Inv contents sem s
      → Live contents sem k 0 s
      → Inv contents sem (run sem contents (all_ok ws) s)
        × Live contents sem m 0 (run sem contents (all_ok ws) s)
  unfolding run
  first_turns [] k m s eq inv v = let same : k ≡ m = omega (arith, eq) in (inv, rw (← same) v)
  first_turns (writes ∷ ws) k m s eq inv v =
      first_turns ws (suc k) m _ (omega (arith, eq))
        (write_turn-Inv contents sem true s.writer s inv.writer_inv inv)
        (write_turn-Live contents sem k 0 s.writer s refl v.at v)
  first_turns (reads ∷ ws) k m s eq inv v =
      first_turns ws k m _ eq (read_turn-Inv contents sem true s.reader s inv.reader_inv inv) (
        read_turn-Live contents sem ready k 0 0 s.reader s refl inv.reader_inv v.least (omega arith)
          (inr refl) v)

  up_now :
      (k : ℕ) (w : Writer) (r : Reader) (x : Sem)
      → WriterAt contents k w
      → length contents + 4 ≤ k
      → UpAt contents sem w r x
      → Before contents r (0 < sem.value x)
  up_now k writer_done r x h p u = u
  up_now k creating r x h p u = absurd (omega (arith, h))
  up_now k (copying n) r x (h, q) p u = absurd (omega (arith, h))
  up_now k writer_posting r x h p u = absurd (omega (arith, h))
  up_now k writer_failed r x h p u = absurd h

  -- When the writer is done.
  last_turns :
      (ws : List Who) (k j m : ℕ) (s : State Sem)
      → length contents + 4 ≤ k
      → reader_turns ws + j ≡ m
      → Inv contents sem s
      → Live contents sem k j s
      → AtLeast contents m
          (run sem contents (all_ok ws) s).reader
          (run sem contents (all_ok ws) s).output
  unfolding run
  last_turns [] k j m s p eq inv v = let same : j ≡ m = omega (arith, eq) in rw (← same) v.least
  last_turns (writes ∷ ws) k j m s p eq inv v =
      last_turns ws (suc k) j m _ (omega arith) eq
        (write_turn-Inv contents sem true s.writer s inv.writer_inv inv)
        (write_turn-Live contents sem k j s.writer s refl v.at v)
  last_turns (reads ∷ ws) k j m s p eq inv v =
      last_turns ws k (suc j) m _ p (omega (arith, eq))
        (read_turn-Inv contents sem true s.reader s inv.reader_inv inv)
        (read_turn-Live contents sem ready k j (suc j) s.reader s refl inv.reader_inv v.least
          (omega arith) (inl (up_now k s.writer s.reader s.semaphore v.at p v.up)) v)

  finished :
      (m : ℕ) (r : Reader) (output : Text)
      → AtLeast contents m r output
      → length contents + 4 ≤ m
      → (r ≡ reader_done) × (output ≡ contents)
  finished m reader_done output h p = (refl, h)
  finished m opening output h p = absurd (omega (arith, h))
  finished m waiting output h p = absurd (omega (arith, h))
  finished m (printing n) output (h, q) p = absurd (omega (arith, h, q, p))
  finished m reader_posting output h p = absurd (omega (arith, h))
  finished m reader_failed output h p = absurd h

-- When the semaphore opens in both processes, starts at 0 and does not block above it, and no call fails: after any turns of
-- both processes with enough of them the writer's, and then any with enough of them the reader's, the
-- reader is done and has printed the whole string. Enough is four more than the length of the string.
pub run_shows_all :
    {Sem : Type 0} (sem : Semaphore Sem) (x : Sem) (ws ws' : List Who)
    → ((y : Sem) → 0 < sem.value y → sem.wait y ≢ none)
    → sem.value x ≡ 0
    → length mem_contents + 4 ≤ writer_turns ws
    → length mem_contents + 4 ≤ reader_turns ws'
    → ((run sem mem_contents (all_ok ws') (run sem mem_contents (all_ok ws) (start x))).reader
        ≡ reader_done)
      × ((run sem mem_contents (all_ok ws') (run sem mem_contents (all_ok ws) (start x))).output
          ≡ mem_contents)
run_shows_all sem x ws ws' ready eq enough enough' =
    let (inv, v) =
      first_turns mem_contents sem ready ws 0 (writer_turns ws) (start x) (omega arith)
        (start-Inv mem_contents sem x eq)
        (record { at = refl; least = omega arith; up = tt; none_lost = refl }) in
    finished mem_contents sem ready (reader_turns ws') _ _
      (last_turns mem_contents sem ready ws' (writer_turns ws) 0 (reader_turns ws') _ enough
        (omega arith) inv v)
      enough'
