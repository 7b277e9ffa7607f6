-- ===== src/Ipc/Copy/Outcome.antt =====
-- flock and pipeUN.c: what is copied, and under which locks.
use miscellaneous.Base.{
  ℕ, zero, suc, ◌+◌, ◌<◌, ◌≤◌, ◌≡◌, refl, sym, ap, ◌∙◌, ◌⊎◌, inl, inr, arith, Bool, true, false,
  ltb, [], ◌∷◌, ◌++◌, Text, char_at, first, first_all, length,
}
use miscellaneous.Base.Run.{Yields, yields, Yields-test, Yields-weaken}
use miscellaneous.Base.Prog.{Yields-follow}
use miscellaneous.Base.Attempt.{event, Log, Env, by_attempt, by_answer}
use miscellaneous.Ipc.Copy.{
  Call, close_file, open_pipe, wait, close_end, open_file, get_lock, write_lock, read_lock, unlock,
  write, read_byte, show, Answers, data_string, pipe_message, Fork, no_fork, in_child, in_parent,
  producer_main, copy_loop, consumer_main,
}

abbrev pub reads : Log Call → ℕ
reads [] = 0
reads (event read_byte true ∷ l) = suc (reads l)
reads (_ ∷ l) = reads l

-- What it tries to copy to the standard output, in its order, and what of it is written.
abbrev pub offered : Log Call → Text
offered [] = []
offered (event (show c) _ ∷ l) = offered l ++ (c ∷ [])
offered (_ ∷ l) = offered l

abbrev pub shown : Log Call → Text
shown [] = []
shown (event (show c) true ∷ l) = shown l ++ (c ∷ [])
shown (_ ∷ l) = shown l

-- What it tries to write to the file or the pipe, in its order, and what of it is written.
abbrev pub tried : Log Call → Text
tried [] = []
tried (event (write t) _ ∷ l) = tried l ++ t
tried (_ ∷ l) = tried l

abbrev pub written : Log Call → Text
written [] = []
written (event (write t) true ∷ l) = written l ++ t
written (_ ∷ l) = written l

-- A `write` has failed.
abbrev pub Lost : Log Call → Type 0
Lost [] = ⊥
Lost (event (show _) false ∷ l) = Unit
Lost (event (write _) false ∷ l) = Unit
Lost (_ ∷ l) = Lost l

pub shown-or_Lost : (l : Log Call) → (shown l ≡ offered l) ⊎ Lost l
shown-or_Lost [] = inl refl
shown-or_Lost (event open_file r ∷ l) = shown-or_Lost l
shown-or_Lost (event get_lock r ∷ l) = shown-or_Lost l
shown-or_Lost (event write_lock r ∷ l) = shown-or_Lost l
shown-or_Lost (event read_lock r ∷ l) = shown-or_Lost l
shown-or_Lost (event unlock r ∷ l) = shown-or_Lost l
shown-or_Lost (event close_file r ∷ l) = shown-or_Lost l
shown-or_Lost (event open_pipe r ∷ l) = shown-or_Lost l
shown-or_Lost (event wait r ∷ l) = shown-or_Lost l
shown-or_Lost (event read_byte r ∷ l) = shown-or_Lost l
shown-or_Lost (event (close_end e) r ∷ l) = shown-or_Lost l
shown-or_Lost (event (write t) true ∷ l) = shown-or_Lost l
shown-or_Lost (event (write t) false ∷ l) = inr tt
shown-or_Lost (event (show c) true ∷ l) = elim (shown-or_Lost l) [
  | inl e ↦ inl (ap (λ x. x ++ (c ∷ [])) e)
  | inr f ↦ inr f
]
shown-or_Lost (event (show c) false ∷ l) = inr tt

pub written-or_Lost : (l : Log Call) → (written l ≡ tried l) ⊎ Lost l
written-or_Lost [] = inl refl
written-or_Lost (event open_file r ∷ l) = written-or_Lost l
written-or_Lost (event get_lock r ∷ l) = written-or_Lost l
written-or_Lost (event write_lock r ∷ l) = written-or_Lost l
written-or_Lost (event read_lock r ∷ l) = written-or_Lost l
written-or_Lost (event unlock r ∷ l) = written-or_Lost l
written-or_Lost (event close_file r ∷ l) = written-or_Lost l
written-or_Lost (event open_pipe r ∷ l) = written-or_Lost l
written-or_Lost (event wait r ∷ l) = written-or_Lost l
written-or_Lost (event read_byte r ∷ l) = written-or_Lost l
written-or_Lost (event (close_end e) r ∷ l) = written-or_Lost l
written-or_Lost (event (write t) true ∷ l) = elim (written-or_Lost l) [
  | inl e ↦ inl (ap (λ x. x ++ t) e)
  | inr f ↦ inr f
]
written-or_Lost (event (write t) false ∷ l) = inr tt
written-or_Lost (event (show c) true ∷ l) = written-or_Lost l
written-or_Lost (event (show c) false ∷ l) = inr tt

pub data Lock : Type 0 where
  no_lock shared exclusive : Lock

abbrev pub lock : Log Call → Lock
lock [] = no_lock
lock (event write_lock true ∷ l) = exclusive
lock (event read_lock true ∷ l) = shared
lock (event unlock true ∷ l) = no_lock
lock (_ ∷ l) = lock l

-- Every access to the file was made under a lock for it.
abbrev pub Guarded : Log Call → Type 0
Guarded [] = Unit {0}
Guarded (event (write _) _ ∷ l) = (lock l ≡ exclusive) × Guarded l
Guarded (event read_byte _ ∷ l) = (lock l ≡ shared) × Guarded l
Guarded (_ ∷ l) = Guarded l

-- What is read is `file`, byte by byte, and then nothing.
pub record Gives (env : Env Call) (answers : Answers) (file : Text) : Type 0 where
  pub more_lem : (l : Log Call) → env l read_byte ≡ ltb (reads l) (length file)
  pub byte_lem : (l : Log Call) → answers.byte (event read_byte true ∷ l) ≡ char_at file (reads l)

whole : (a b c : Text) (L : Type 0) → b ≡ c → (a ≡ b) ⊎ L → (a ≡ c) ⊎ L
whole a b c L e (inl f) = inl (f ∙ e)
whole a b c L e (inr h) = inr h

abbrev pub ProducerOutcome : ℕ × Log Call → Type 0
ProducerOutcome (zero, l) =
    Guarded l × (lock l ≡ no_lock) × (tried l ≡ data_string) × ((written l ≡ data_string) ⊎ Lost l)
ProducerOutcome (suc _, l) = Guarded l

abbrev pub ConsumerOutcome : Text → ℕ × Log Call → Type 0
ConsumerOutcome file (zero, l) =
    Guarded l × (lock l ≡ no_lock) × (offered l ≡ file) × ((shown l ≡ file) ⊎ Lost l)
ConsumerOutcome file (suc _, l) = Guarded l × ((offered l ≡ []) ⊎ (offered l ≡ file))

-- The processes of pipeUN.c, when the pipe gives `file`.
abbrev pub PipeOutcome : Text → Fork → ℕ × Log Call → Type 0
PipeOutcome file in_child (zero, l) = (offered l ≡ file) × ((shown l ≡ file) ⊎ Lost l)
PipeOutcome file in_parent (zero, l) =
    (tried l ≡ pipe_message) × ((written l ≡ pipe_message) ⊎ Lost l)
PipeOutcome file no_fork (zero, l) = ⊥
PipeOutcome file _ (suc _, l) = (offered l ≡ []) × (tried l ≡ [])

-- The same without what was written.
abbrev ProducerTried : ℕ × Log Call → Type 0
ProducerTried (zero, l) = Guarded l × (lock l ≡ no_lock) × (tried l ≡ data_string)
ProducerTried (suc _, l) = Guarded l

producer_written : (out : ℕ × Log Call) → ProducerTried out → ProducerOutcome out
producer_written (zero, l) (g, k, t) =
    (g, k, t, whole (written l) (tried l) data_string (Lost l) t (written-or_Lost l))
producer_written (suc n, l) g = g

abbrev ParentTried : ℕ × Log Call → Type 0
ParentTried (zero, l) = tried l ≡ pipe_message
ParentTried (suc _, l) = (offered l ≡ []) × (tried l ≡ [])

module _ (env : Env Call) where
  producer_main-ProducerTried : Yields ProducerTried (producer_main env [])
  unfolding producer_main
  producer_main-ProducerTried = by_attempt env _ _ _ _ (yields tt) λ _.
      by_attempt env _ _ _ _ (yields tt)
        λ _. by_attempt env _ _ _ _ (yields (refl, tt)) λ _. yields ((refl, tt), refl, refl)

  producer_main-ProducerOutcome : Yields ProducerOutcome (producer_main env [])
  producer_main-ProducerOutcome = Yields-weaken producer_written producer_main-ProducerTried

  module _ (answers : Answers) (file : Text) (gives : Gives env answers file) where
    -- The copy up to here.
    record Copied (k : Lock) (l : Log Call) : Type 0 where
      within : reads l ≤ length file
      same : offered l ≡ first (reads l) file
      under : lock l ≡ k

    copy_end :
        (l : Log Call) → env l read_byte ≡ false → reads l ≤ length file → reads l ≡ length file
    copy_end l eq h =
        let done : ltb (reads l) (length file) ≡ false = sym (gives.more_lem l) ∙ eq in
        ground (arith, done, h)

    next_byte :
        {k : Lock} {b : Bool} (l : Log Call)
        → env l read_byte ≡ true
        → Copied k l
        → Copied k
            (event (show (answers.byte (event read_byte true ∷ l))) b ∷ event read_byte true ∷ l)
    next_byte l eq c =
        let more : ltb (reads l) (length file) ≡ true = sym (gives.more_lem l) ∙ eq in
        record {
          within = ground (arith, more);
          same =
              ap (λ x. x ++ (answers.byte (event read_byte true ∷ l) ∷ [])) c.same
              ∙ ap (λ x. first (reads l) file ++ (x ∷ [])) (gives.byte_lem l);
          under = c.under;
        }

    copy_end-offered :
        {k : Lock} (l : Log Call) → env l read_byte ≡ false → Copied k l → offered l ≡ file
    copy_end-offered l eq c =
        c.same ∙ ap (λ n. first n file) (copy_end l eq c.within) ∙ first_all file

    -- The loop copies all of the file, in any state that its reads and writes do not change.
    copy_loop-offered :
        (Keeps : Log Call → Type 0)
        → (k : Lock)
        → ((l : Log Call) (b : Bool) → lock l ≡ k → Keeps l → Keeps (event read_byte b ∷ l))
        → ((l : Log Call) (c : ℕ) (b : Bool) → Keeps l → Keeps (event (show c) b ∷ l))
        → (fuel : ℕ) (l : Log Call) → length file < reads l + fuel
        → Keeps l
        → Copied k l
        → Yields
            (λ (_, l'). Keeps l' × (lock l' ≡ k) × (offered l' ≡ file))
            (copy_loop env answers fuel l)
    unfolding copy_loop
    copy_loop-offered Keeps k r s zero l enough h c = let small = c.within in absurd (omega arith)
    copy_loop-offered Keeps k r s (suc fuel) l enough h c =
        by_answer env _ _ _ _ (λ eq. yields (r l false c.under h, c.under, copy_end-offered l eq c))
          λ eq.
            copy_loop-offered Keeps k r s fuel _ (omega arith) (s _ _ _ (r l true c.under h))
              (next_byte l eq c)

    consumer_main-ConsumerOutcome :
        (fuel : ℕ)
        → length file < fuel
        → Yields (ConsumerOutcome file) (consumer_main env answers fuel [])
    unfolding consumer_main
    consumer_main-ConsumerOutcome fuel enough = by_attempt env _ _ _ _ (yields (tt, inl refl)) λ _.
        Yields-test
          (answers.unlocked
            (event get_lock (env (event open_file true ∷ []) get_lock) ∷ event open_file true ∷ []))
          (λ _. by_attempt env _ _ _ _ (yields (tt, inl refl)) λ _.
            Yields-follow
              (copy_loop-offered Guarded shared (λ l b p g. (p, g)) (λ l c b g. g) fuel _
                (omega arith) tt (record { within = omega arith; same = refl; under = refl }))
              λ _ l (g, p, same).
                by_attempt env _ _ _ _ (yields (g, inr same))
                  λ _. yields (g, refl, same, whole _ _ file _ same (shown-or_Lost l)))
          (λ _. yields (tt, inl refl))

-- producer.c, and consumer.c on a file of which `read` gives all bytes one after the other and then
-- nothing, with more fuel than its length; whatever the other calls answer. Both end, and have tried to
-- write to the file only under the exclusive lock, and read it only under the shared one. With status 0
-- the lock is released, the producer has tried to write its text, and the consumer each byte of the
-- file in order, and that is what was written, unless a write failed, which neither checks; with status
-- 255 the consumer has tried to copy all or nothing.
pub flock_mains-Outcome :
    (env env' : Env Call) (answers : Answers) (file : Text)
    → Gives env' answers file
    → (fuel : ℕ) → length file < fuel
    → Yields ProducerOutcome (producer_main env [])
      × Yields (ConsumerOutcome file) (consumer_main env' answers fuel [])
flock_mains-Outcome env env' answers file gives fuel enough = (
  producer_main-ProducerOutcome env,
  consumer_main-ConsumerOutcome env' answers file gives fuel enough,
)
