-- ===== src/Sessions/UnixDomain/Tests.antt =====
-- A conversation between the two programs of misce_tests/socket.
use miscellaneous.Base.{ℕ, Option, some, text}
use miscellaneous.Sessions.Calls.{Call, socket, accept, Log, Env}
use miscellaneous.Sessions.Samples.{limit}

-- The first socket has descriptor 3, the next 4, and the other end says "hi".
abbrev answer : Log → Call → Option ℕ
answer l socket = some 3
answer l (accept _) = some 4
answer l _ = some 0

abbrev friendly : Env
friendly = record { result = answer; bytes = λ l d size. limit size (text "hi") }
