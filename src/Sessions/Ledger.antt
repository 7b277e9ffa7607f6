-- ===== src/Sessions/Ledger.antt =====
-- What a log of calls tells: which descriptors are open, and what has been read and written.
use miscellaneous.Base.{
  ℕ, suc, ◌<◌, ◌≡◌, Bool, true, false, if◌then◌else◌, ◌==◌, Option, none, some, length, List, [],
  ◌∷◌, ◌++◌, Text,
}
use miscellaneous.Sessions.Calls.{
  socket, accept, close, write, show, Event, called, received, Log, Env, has_null,
}

abbrev pub change : Event → (ℕ → Bool) → ℕ → Bool
change (called socket (some d)) o j = if j == d then true else o j
change (called (accept _) (some d)) o j = if j == d then true else o j
change (called (close d) _) o j = if j == d then false else o j
change _ o j = o j

-- The descriptors that the program has opened and not closed.
abbrev pub opened : Log → ℕ → Bool
opened [] j = false
opened (e ∷ l) j = change e (opened l) j

-- Nothing but `fd` is open.
pub record OnlyOpen (fd : ℕ) (l : Log) : Type 0 where
  pub others : (j : ℕ) → (j == fd) ≡ false → opened l j ≡ false

-- Nothing but `fd` and `c` is open.
pub record OnlyTwoOpen (fd c : ℕ) (l : Log) : Type 0 where
  pub others : (j : ℕ) → (j == fd) ≡ false → (j == c) ≡ false → opened l j ≡ false

abbrev pub AllClosed : Log → Type 0
AllClosed l = (j : ℕ) → opened l j ≡ false

-- What a program reads from a descriptor, what it writes to one and to its standard output, and what it
-- tried to write in vain.
pub data Message : Type 0 where
  got said unsaid : ℕ → Text → Message
  shown unshown : Text → Message

-- A `write`, by its result. One that succeeds is taken to write the whole text.
abbrev pub tried : Option ℕ → ℕ → Text → Message
tried (some _) d t = said d t
tried none d t = unsaid d t

abbrev pub tried_show : Option ℕ → Text → Message
tried_show (some _) t = shown t
tried_show none t = unshown t

abbrev pub add_message : Event → List Message → List Message
add_message (called (write d t) r) ms = tried r d t ∷ ms
add_message (called (show t) r) ms = tried_show r t ∷ ms
add_message (received d (some b)) ms = got d b ∷ ms
add_message _ ms = ms

-- The last message first.
abbrev pub talk : Log → List Message
talk [] = []
talk (e ∷ l) = add_message e (talk l)

-- To every text that is read a reply is written at once, on the same descriptor; the end of a stream,
-- where nothing is read, has none. `Writes` is whether the writes may fail.
pub data Answered (Reply : Text → Text → Type 0) (Writes : Option ℕ → Type 0)
    : List Message → Type 0 where
  start : Answered Reply Writes []
  ended :
      {ms : List Message} (d : ℕ) → Answered Reply Writes ms → Answered Reply Writes (got d [] ∷ ms)
  round :
      {ms : List Message} {r : Option ℕ} (d c : ℕ) (b reply : Text)
      → Answered Reply Writes ms
      → Writes r
      → Reply (c ∷ b) reply
      → Answered Reply Writes (tried r d reply ∷ got d (c ∷ b) ∷ ms)

-- All writes succeed, or they may fail.
abbrev pub Succeeds : Option ℕ → Type 0
Succeeds (some _) = Unit
Succeeds none = ⊥

abbrev pub MayFail : Option ℕ → Type 0
MayFail r = Unit

-- How often something has been read.
abbrev pub reads : Log → ℕ
reads [] = 0
reads (received d (some (c ∷ b)) ∷ l) = suc (reads l)
reads (_ ∷ l) = reads l

-- The other ends send no more than `n` texts in all.
abbrev pub Sends : ℕ → Env → Type 0
Sends n env = (l : Log) (d size c : ℕ) (b : Text) → env.bytes l d size ≡ some (c ∷ b) → reads l < n

-- What is read has a null in it.
abbrev pub Terminated : Env → Type 0
Terminated env =
    (l : Log) (d size c : ℕ) (b : Text)
    → env.bytes l d size ≡ some (c ∷ b)
    → has_null (c ∷ b) ≡ true

-- What is read leaves room in its buffer.
abbrev pub Short : Env → Type 0
Short env = (l : Log) (d size : ℕ) (b : Text) → env.bytes l d size ≡ some b → length b < size

-- Of the texts `qs`, those before `rest` have been sent in their order; each gave the messages of one
-- turn. The last text's messages stand first.
pub data Dialogue (Turn : Text → List Message → Type 0) (qs : List Text)
    : List Text → List Message → Type 0 where
  opening : Dialogue Turn qs qs []
  turn :
      {rest : List Text} {ms : List Message} (q : Text) (new : List Message)
      → Turn q new
      → Dialogue Turn qs (q ∷ rest) ms
      → Dialogue Turn qs rest (new ++ ms)
