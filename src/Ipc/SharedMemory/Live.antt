-- ===== src/Ipc/SharedMemory/Live.antt =====
-- ipcCode/shmem: how far the two processes have come, and what one turn adds when its call succeeds.
use miscellaneous.Base.{
  ℕ, suc, ◌+◌, ◌<◌, ◌≤◌, ◌≡◌, ◌≢◌, refl, ◌⊎◌, inl, inr, arith, true, ltb, Option, none, some, Text,
  length, Bool-cases,
}
use miscellaneous.Ipc.SharedMemory.{
  Semaphore, Writer, creating, copying, writer_posting, writer_done, writer_failed, Reader, opening,
  waiting, printing, reader_posting, reader_done, reader_failed, State, write_turn, waited,
  read_turn,
}
use miscellaneous.Ipc.SharedMemory.Bytes.{ReaderInv, Missing-none}

module _ (contents : Text) where
  -- Where the writer is after `k` of its turns.
  abbrev pub WriterAt : ℕ → Writer → Type 0
  WriterAt k creating = k ≡ 0
  WriterAt k (copying n) = (k ≡ n + 1) × (n ≤ length contents + 1)
  WriterAt k writer_posting = k ≡ length contents + 3
  WriterAt k writer_done = length contents + 4 ≤ k
  WriterAt k writer_failed = ⊥

  -- The reader has come at least as far as `j` turns take it that do not block.
  abbrev pub AtLeast : ℕ → Reader → Text → Type 0
  AtLeast j opening output = j ≤ 0
  AtLeast j waiting output = j ≤ 1
  AtLeast j (printing n) output = (j ≤ n + 2) × (n ≤ length contents)
  AtLeast j reader_posting output = j ≤ length contents + 3
  AtLeast j reader_done output = output ≡ contents
  AtLeast j reader_failed output = ⊥

  abbrev pub Before : Reader → Type 0 → Type 0
  Before opening P = P
  Before waiting P = P
  Before _ P = Unit {0}

  module _ {Sem : Type 0} (sem : Semaphore Sem) where
    -- Once the writer is done, the reader need not wait.
    abbrev pub UpAt : Writer → Reader → Sem → Type 0
    UpAt writer_done r x = Before r (0 < sem.value x)
    UpAt _ r x = Unit {0}

    up_on :
        (w : Writer) (r r' : Reader) (x x' : Sem)
        → (Before r (0 < sem.value x) → Before r' (0 < sem.value x'))
        → UpAt w r x
        → UpAt w r' x'
    up_on writer_done r r' x x' f h = f h
    up_on creating r r' x x' f h = tt
    up_on (copying n) r r' x x' f h = tt
    up_on writer_posting r r' x x' f h = tt
    up_on writer_failed r r' x x' f h = tt

    now : {r r' : Reader} (P : Type 0) → r ≡ r' → Before r P → Before r' P
    now P eq p = rw (← eq) p

    before : (r : Reader) {P : Type 0} → P → Before r P
    before opening p = p
    before waiting p = p
    before (printing n) p = tt
    before reader_posting p = tt
    before reader_done p = tt
    before reader_failed p = tt

    -- The writer has taken `k` turns, and the reader has come as far as `j` take it.
    pub record Live (k j : ℕ) (s : State Sem) : Type 0 where
      pub at : WriterAt k s.writer
      pub least : AtLeast j s.reader s.output
      pub up : UpAt s.writer s.reader s.semaphore
      pub none_lost : s.unprinted ≡ 0

    pub write_turn-Live :
        (k j : ℕ) (w : Writer) (s : State Sem)
        → s.writer ≡ w
        → WriterAt k w
        → Live k j s
        → Live (suc k) j (write_turn sem contents true w s)
    unfolding write_turn
    write_turn-Live k j creating s eq h v = record {
      at = (omega (arith, h), omega arith);
      least = v.least;
      up = tt;
      none_lost = v.none_lost;
    }
    write_turn-Live k j (copying n) s eq (p, q) v =
        elim (Bool-cases (ltb n (length contents + 1))) [
          | inl e ↦ rw e (record {
            at = (omega (arith, p), ground (arith, e));
            least = v.least;
            up = tt;
            none_lost = v.none_lost;
          })
          | inr e ↦ rw e (record {
            at = ground (arith, e, p, q);
            least = v.least;
            up = tt;
            none_lost = v.none_lost;
          })
        ]
    write_turn-Live k j writer_posting s eq h v = record {
      at = omega (arith, h);
      least = v.least;
      up = before s.reader (omega (arith, sem.post_lem s.semaphore));
      none_lost = v.none_lost;
    }
    write_turn-Live k j writer_done s eq h v = record {
      at = rw eq (omega (arith, h));
      least = v.least;
      up = v.up;
      none_lost = v.none_lost;
    }
    write_turn-Live k j writer_failed s eq h v = absurd h

    module _ (ready : (x : Sem) → 0 < sem.value x → sem.wait x ≢ none) where
      waited-Live :
          (k j i : ℕ) (s : State Sem) (o : Option Sem)
          → sem.wait s.semaphore ≡ o
          → s.reader ≡ waiting
          → i ≤ suc j
          → j ≤ 1
          → (0 < sem.value s.semaphore) ⊎ (i ≡ 0)
          → Live k j s
          → Live k i (waited sem contents s o)
      unfolding waited
      waited-Live k j i s none eq r small h (inl p) v = absurd (ready s.semaphore p eq)
      waited-Live k j i s none eq r small h (inr p) v = record {
        at = v.at;
        least = rw r (omega (arith, p));
        up = v.up;
        none_lost = v.none_lost;
      }
      waited-Live k j i s (some x) eq r small h b v = record {
        at = v.at;
        least = (omega (arith, small, h), omega arith);
        up = up_on s.writer s.reader (printing 0) s.semaphore x (λ _. tt) v.up;
        none_lost = v.none_lost;
      }

      pub read_turn-Live :
          (k j i : ℕ) (r : Reader) (s : State Sem)
          → s.reader ≡ r
          → ReaderInv contents r s.memory s.output s.unprinted
          → AtLeast j r s.output
          → i ≤ suc j
          → Before s.reader (0 < sem.value s.semaphore) ⊎ (i ≡ 0)
          → Live k j s
          → Live k i (read_turn sem contents true r s)
      unfolding read_turn
      read_turn-Live k j i opening s eq inv h small b v = record {
        at = v.at;
        least = omega (arith, small, h);
        up = up_on s.writer s.reader waiting s.semaphore s.semaphore (λ p. now _ eq p) v.up;
        none_lost = v.none_lost;
      }
      read_turn-Live k j i waiting s eq inv h small b v =
          waited-Live k j i s (sem.wait s.semaphore) refl eq small h
            (elim b [ inl p ↦ inl (now _ eq p) | inr q ↦ inr q ]) v
      read_turn-Live k j i (printing n) s eq (p, w, o) (h, _) small b v =
          elim (Bool-cases (ltb n (length contents))) [
            | inl e ↦ rw e (record {
              at = v.at;
              least = (omega (arith, small, h), ground (arith, e));
              up =
                  up_on s.writer s.reader (printing (suc n)) s.semaphore s.semaphore (λ _. tt) v.up;
              none_lost = v.none_lost;
            })
            | inr e ↦ rw e (record {
              at = v.at;
              least = ground (arith, e, h, p, small);
              up = up_on s.writer s.reader reader_posting s.semaphore s.semaphore (λ _. tt) v.up;
              none_lost = v.none_lost;
            })
          ]
      read_turn-Live k j i reader_posting s eq (w, o) h small b v = record {
        at = v.at;
        least = Missing-none o v.none_lost;
        up = up_on s.writer s.reader reader_done s.semaphore (sem.post s.semaphore) (λ _. tt) v.up;
        none_lost = v.none_lost;
      }
      read_turn-Live k j i reader_done s eq inv h small b v = record {
        at = v.at;
        least = rw eq h;
        up = v.up;
        none_lost = v.none_lost;
      }
      read_turn-Live k j i reader_failed s eq inv h small b v = absurd h
