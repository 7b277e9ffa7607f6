-- ===== src/Sessions/Servers/Tests.antt =====
-- socket_server.cpp, server.c and server_unix.c: a client that says "hi" three times, and hangs up.
use miscellaneous.Base.{
  ℕ, ◌-◌, ◌≡◌, refl, sym, ap, arith, Bool, true, false, ◌&&◌, ltb→lt, Option, some, [], ◌∷◌, ◌++◌,
  Text, text, ltb, if◌then◌else◌,
}
use miscellaneous.Base.Run.{Yields}
use miscellaneous.Sessions.Calls.{Call, socket, accept, Log, Env, has_null}
use miscellaneous.Sessions.Ledger.{
  talk, Answered, MayFail, OnlyOpen, reads, Sends, Terminated, Short,
}
use miscellaneous.Sessions.Samples.{limit, limit-some}
use miscellaneous.Sessions.Servers.{answer_main, confirm_main, upper_main}
use miscellaneous.Sessions.Servers.Replies.{
  IsEcho, IsUpper, AnswerOutcome, answer_main-Answered, confirm_main-Answered, upper_main-Answered,
}

abbrev answer : Log → Call → Option ℕ
answer l socket = some 3
answer l (accept _) = some 4
answer l _ = some 0

abbrev hi : Text
hi = text "hi" ++ (0 ∷ [])

abbrev next : ℕ → Text
next n = if ltb n 3 then hi else []

abbrev three_times : Env
three_times = record { result = answer; bytes = λ l d size. limit size (next (reads l)) }

finite_branch :
    (b : Bool) (c : ℕ) (t : Text)
    → (if b then hi else []) ≡ c ∷ t
    → (b ≡ true) × (has_null (c ∷ t) ≡ true)
finite_branch true c t eq = (refl, ap has_null (sym eq))
finite_branch false c t eq = cc eq

three_times-next :
    (l : Log) (size c : ℕ) (b : Text)
    → limit size (next (reads l)) ≡ some (c ∷ b)
    → (ltb (reads l) 3 ≡ true) × (has_null (c ∷ b) ≡ true)
three_times-next l size c b eq =
    finite_branch (ltb (reads l) 3) c b ((limit-some size (next (reads l)) (c ∷ b) eq).0)

three_times-Sends : Sends 3 three_times
three_times-Sends l d size c b eq = ltb→lt (reads l) 3 ((three_times-next l size c b eq).0)

three_times-Terminated : Terminated three_times
three_times-Terminated l d size c b eq = (three_times-next l size c b eq).1

three_times-Short : Short three_times
three_times-Short l d size b eq = (limit-some size (next (reads l)) b eq).1

abbrev capital : ℕ → ℕ
capital c = if ltb 96 c && ltb c 123 then c - 32 else c

answer_main-Answered_example : Yields AnswerOutcome (answer_main three_times 4 true [])
answer_main-Answered_example =
    answer_main-Answered three_times 3 three_times-Sends three_times-Terminated 4 true (omega arith)

confirm_main-Answered_example :
    Yields
      (λ (status, l). Answered IsEcho MayFail (talk l) × ((fd : ℕ) × OnlyOpen fd l))
      (confirm_main three_times 2 [])
confirm_main-Answered_example =
    confirm_main-Answered three_times 3 three_times-Sends three_times-Short 2

upper_main-Answered_example :
    Yields
      (λ (status, l). Answered (IsUpper capital) MayFail (talk l) × ((fd : ℕ) × OnlyOpen fd l))
      (upper_main three_times capital 4 2 [])
upper_main-Answered_example =
    upper_main-Answered three_times 3 three_times-Sends three_times-Terminated capital 4
      (omega arith) 2
