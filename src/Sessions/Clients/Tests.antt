-- ===== src/Sessions/Clients/Tests.antt =====
-- The clients, against a system that opens descriptor 3 and whose other end says "hi".
use miscellaneous.Base.{ℕ, Option, some, [], ◌∷◌, text}
use miscellaneous.Base.Run.{Yields}
use miscellaneous.Sessions.Calls.{Call, socket, write, host_by_name, Log, Env}
use miscellaneous.Sessions.Samples.{limit}
use miscellaneous.Sessions.Clients.{line_main}
use miscellaneous.Sessions.Clients.Dialogues.{LineOutcome, line_main-LineOutcome}

abbrev answer : Log → Call → Option ℕ
answer l socket = some 3
answer l host_by_name = some 2
answer l (write d t) = some 1
answer l _ = some 0

abbrev friendly : Env
friendly = record { result = answer; bytes = λ l d size. limit size (text "hi") }

line_main-LineOutcome_example :
    Yields (LineOutcome (text "a" ∷ [])) (line_main friendly (text "a" ∷ []) [])
line_main-LineOutcome_example = line_main-LineOutcome friendly (text "a" ∷ [])
