-- ===== src/Ipc/SharedMemory/Schedules.antt =====
-- ipcCode/shmem: what the reader prints, in whatever order the two processes run.
use miscellaneous.Base.{
  ℕ, suc, ◌+◌, ◌<◌, ◌≤◌, ◌≡◌, refl, ap, ◌∙◌, ◌⊎◌, inl, inr, arith, Bool, true, false, ltb, Option,
  none, some, [], ◌∷◌, ◌++◌, Text, char_at, first, first_all, length, Bool-cases,
}
use mathlib.Core.Path.{subst}
use miscellaneous.Ipc.SharedMemory.{
  Semaphore, Writer, creating, copying, writer_posting, writer_done, writer_failed, Reader, opening,
  waiting, printing, reader_posting, reader_done, reader_failed, State, copy_byte, write_turn,
  waited, print_byte, read_turn, start,
}
use miscellaneous.Ipc.SharedMemory.Bytes.{
  Missing, all_there, Missing-kept, Missing-left_out, Has, Written, WriterInv, ReaderInv, store-Has,
  store_next, store-ReaderInv,
}

-- What the reader has printed of the contents, with so many bytes lost.
abbrev pub Shown : Text → Reader → Text → ℕ → Type 0
Shown contents (printing n) output lost =
    (n ≤ length contents) × Missing lost output (first n contents)
Shown contents reader_posting output lost = Missing lost output contents
Shown contents reader_done output lost = (output ≡ []) ⊎ Missing lost output contents
Shown contents _ output lost = output ≡ []

module _ (contents : Text) where
  module _ {Sem : Type 0} (sem : Semaphore Sem) where
    pub record Inv (s : State Sem) : Type 0 where
      pub writer_inv : WriterInv contents s.writer s.memory
      pub reader_inv : ReaderInv contents s.reader s.memory s.output s.unprinted
      -- The semaphore is up only when all has been written.
      pub semaphore_inv : 0 < sem.value s.semaphore → Written contents s.memory

    copy_byte-Inv :
        (n : ℕ) (s : State Sem) → Has contents n s.memory → Inv s → Inv (copy_byte sem contents n s)
    copy_byte-Inv n s h v = elim (Bool-cases (ltb n (length contents + 1))) [
      | inl e ↦ rw e (record {
        writer_inv = store_next contents n s.memory h;
        reader_inv = store-ReaderInv contents n s.reader s.memory s.output s.unprinted v.reader_inv;
        semaphore_inv = λ p. store-Has contents n _ s.memory (v.semaphore_inv p);
      })
      | inr e ↦ rw e (record {
        writer_inv = λ i p. h i (ground (arith, e));
        reader_inv = v.reader_inv;
        semaphore_inv = v.semaphore_inv;
      })
    ]

    pub write_turn-Inv :
        (ok : Bool) (w : Writer) (s : State Sem)
        → WriterInv contents w s.memory
        → Inv s
        → Inv (write_turn sem contents ok w s)
    unfolding write_turn
    write_turn-Inv true creating s h v = record {
      writer_inv = λ i p. absurd (omega (arith, p));
      reader_inv = v.reader_inv;
      semaphore_inv = v.semaphore_inv;
    }
    write_turn-Inv false creating s h v = record {
      writer_inv = tt;
      reader_inv = v.reader_inv;
      semaphore_inv = v.semaphore_inv;
    }
    write_turn-Inv true (copying n) s h v = copy_byte-Inv n s h v
    write_turn-Inv false (copying n) s h v = copy_byte-Inv n s h v
    write_turn-Inv true writer_posting s h v = record {
      writer_inv = tt;
      reader_inv = v.reader_inv;
      semaphore_inv = λ p. h;
    }
    write_turn-Inv false writer_posting s h v = record {
      writer_inv = tt;
      reader_inv = v.reader_inv;
      semaphore_inv = v.semaphore_inv;
    }
    write_turn-Inv true writer_done s h v = v
    write_turn-Inv false writer_done s h v = v
    write_turn-Inv true writer_failed s h v = v
    write_turn-Inv false writer_failed s h v = v

    -- The reader has moved on to `r` with the same memory.
    abbrev reads_on : (s : State Sem) (r : Reader) (output : Text) → State Sem
    reads_on s r output = record s { reader = r; output = output }

    on-Inv :
        (s : State Sem) (r : Reader) (output : Text)
        → Inv s
        → ReaderInv contents r s.memory output s.unprinted
        → Inv (reads_on s r output)
    on-Inv s r output v h = record {
      writer_inv = v.writer_inv;
      reader_inv = h;
      semaphore_inv = v.semaphore_inv;
    }

    nothing_yet : {output : Text} {lost : ℕ} → (output ≡ []) × (lost ≡ 0) → Missing lost output []
    nothing_yet (o, k) = rw (o, k) all_there

    waited-Inv :
        (s : State Sem) (o : Option Sem)
        → sem.wait s.semaphore ≡ o
        → (s.output ≡ []) × (s.unprinted ≡ 0)
        → Inv s
        → Inv (waited sem contents s o)
    unfolding waited
    waited-Inv s none eq h v = v
    waited-Inv s (some x) eq h v =
        let taken = sem.wait_lem s.semaphore x eq in
        let written = v.semaphore_inv (omega (arith, taken)) in
        record {
          writer_inv = v.writer_inv;
          reader_inv = (omega arith, written, nothing_yet h);
          semaphore_inv = λ p. written;
        }

    whole :
        (n k : ℕ) (output : Text)
        → ltb n (length contents) ≡ false
        → n ≤ length contents
        → Missing k output (first n contents)
        → Missing k output contents
    whole n k output e p o =
        let all : n ≡ length contents = ground (arith, e, p) in
        let text_same : first n contents ≡ contents =
          ap (λ i. first i contents) all ∙ first_all contents in
        subst (λ t. Missing k output t) text_same o

    print_byte-Inv :
        (ok : Bool) (n : ℕ) (s : State Sem)
        → ReaderInv contents (printing n) s.memory s.output s.unprinted
        → Inv s
        → Inv (print_byte sem contents ok n s)
    print_byte-Inv true n s (p, w, o) v = elim (Bool-cases (ltb n (length contents))) [
      | inl e ↦
          let c : s.memory n ≡ char_at contents n = w n (omega (arith, p)) in
          rw e (
            on-Inv s (printing (suc n)) (s.output ++ (s.memory n ∷ [])) v
              (ground (arith, e), w, rw c (Missing-kept (char_at contents n) o)))
      | inr e ↦ rw e (on-Inv s reader_posting s.output v (w, whole n s.unprinted s.output e p o))
    ]
    print_byte-Inv false n s (p, w, o) v = elim (Bool-cases (ltb n (length contents))) [
      | inl e ↦ rw e (record {
        writer_inv = v.writer_inv;
        reader_inv = (ground (arith, e), w, Missing-left_out (char_at contents n) o);
        semaphore_inv = v.semaphore_inv;
      })
      | inr e ↦ rw e (on-Inv s reader_posting s.output v (w, whole n s.unprinted s.output e p o))
    ]

    pub read_turn-Inv :
        (ok : Bool) (r : Reader) (s : State Sem)
        → ReaderInv contents r s.memory s.output s.unprinted
        → Inv s
        → Inv (read_turn sem contents ok r s)
    unfolding read_turn
    read_turn-Inv true opening s h v = on-Inv s waiting s.output v h
    read_turn-Inv false opening s h v = on-Inv s reader_failed s.output v h.0
    read_turn-Inv true waiting s h v = waited-Inv s (sem.wait s.semaphore) refl h v
    read_turn-Inv false waiting s h v = on-Inv s reader_done s.output v (inl h.0)
    read_turn-Inv true (printing n) s h v = print_byte-Inv true n s h v
    read_turn-Inv false (printing n) s h v = print_byte-Inv false n s h v
    read_turn-Inv true reader_posting s (w, o) v = record {
      writer_inv = v.writer_inv;
      reader_inv = inr o;
      semaphore_inv = λ p. w;
    }
    read_turn-Inv false reader_posting s (w, o) v = on-Inv s reader_done s.output v (inr o)
    read_turn-Inv true reader_done s h v = v
    read_turn-Inv false reader_done s h v = v
    read_turn-Inv true reader_failed s h v = v
    read_turn-Inv false reader_failed s h v = v

    pub start-Inv : (x : Sem) → sem.value x ≡ 0 → Inv (start x)
    start-Inv x zero_at_first = record {
      writer_inv = tt;
      reader_inv = (refl, refl);
      semaphore_inv = λ p. absurd (omega (arith, p, zero_at_first));
    }
