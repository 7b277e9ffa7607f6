-- ===== src/Ipc/Copy/Tests.antt =====
-- flock and pipeUN.c: calls that succeed, and a `read` that gives a text.
use miscellaneous.Base.{
  ℕ, suc, ap, ◌-◌, ◌≡◌, refl, arith, true, ltb, Text, text, char_at, length, [],
}
use miscellaneous.Base.Run.{Yields}
use miscellaneous.Base.Attempt.{Env}
use miscellaneous.Ipc.Copy.{Call, read_byte, Answers, producer_main, consumer_main}
use miscellaneous.Ipc.Copy.Outcome.{
  reads, Gives, ProducerOutcome, ConsumerOutcome, flock_mains-Outcome,
}

abbrev reading : Text → Env Call
reading file l read_byte = ltb (reads l) (length file)
reading file l _ = true

abbrev bytes : Text → Answers
bytes file = record { byte = λ l. char_at file (reads l - 1); unlocked = λ l. true }

one_back : (n : ℕ) → suc n - 1 ≡ n
one_back n = omega arith

reading-Gives : (file : Text) → Gives (reading file) (bytes file) file
reading-Gives file = record {
  more_lem = λ l. refl;
  byte_lem = λ l. ap (char_at file) (one_back (reads l));
}

flock_mains-Outcome_example :
    Yields ProducerOutcome (producer_main (reading []) [])
    × Yields
        (ConsumerOutcome (text "hi"))
        (consumer_main (reading (text "hi")) (bytes (text "hi")) 3 [])
flock_mains-Outcome_example =
    flock_mains-Outcome (reading []) (reading (text "hi")) (bytes (text "hi")) (text "hi")
      (reading-Gives (text "hi")) 3 (omega arith)
