-- ===== src/Sessions/Clients/Dialogues.antt =====
-- chat_client.cpp, socket_client.cpp, client.c and client_unix.c: what is sent, in which order, and
-- what is read in between.
use miscellaneous.Base.{
  if◌then◌else◌, ℕ, zero, suc, ◌≡◌, refl, arith, true, false, ◌==◌, Bool-cases, inl, inr, Option,
  none, some, List, [], ◌∷◌, Text, replicate,
}
use miscellaneous.Base.Run.{Yields, yields}
use miscellaneous.Base.Prog.{Yields-follow}
use miscellaneous.Sessions.Calls.{Prog, Log, Env, by_attempt, by_receive}
use miscellaneous.Sessions.Ledger.{
  opened, AllClosed, OnlyOpen, Message, got, said, unsaid, tried, tried_show, talk, Dialogue,
  opening, turn,
}
use miscellaneous.Sessions.Clients.{books, digits, line_loop, line_main}

-- A text is sent, and an answer read, or the end of the stream.
pub data Answered (d : ℕ) (q : Text) : List Message → Type 0 where
  answered : (c : ℕ) (b : Text) → Answered d q (got d (c ∷ b) ∷ said d q ∷ [])
  hung_up : Answered d q (got d [] ∷ said d q ∷ [])

-- A text is sent, or that fails; an answer is read, or the end of the stream, or that fails too.
pub data Attempted (d : ℕ) (q : Text) : List Message → Type 0 where
  answered : (r : Option ℕ) (a : Text) → Attempted d q (got d a ∷ tried r d q ∷ [])
  unanswered : (r : Option ℕ) → Attempted d q (tried r d q ∷ [])

-- An answer is read only after a text that was sent.
pub data MaybeAnswered (d : ℕ) (q : Text) : List Message → Type 0 where
  answered : (a : Text) → MaybeAnswered d q (got d a ∷ said d q ∷ [])
  unanswered : (r : Option ℕ) → MaybeAnswered d q (tried r d q ∷ [])

-- A text is sent, or that fails; what is read is shown, or that fails.
pub data MaybeShown (d : ℕ) (q : Text) : List Message → Type 0 where
  answered :
      (r r' : Option ℕ) (a : Text) → MaybeShown d q (tried_show r' a ∷ got d a ∷ tried r d q ∷ [])
  unanswered : (r : Option ℕ) → MaybeShown d q (tried r d q ∷ [])

-- The lines have been sent and answered one after the other, all or up to one that failed.
pub data ChatOutcome (lines : List Text) : List Message → Type 0 where
  not_connected : ChatOutcome lines []
  all_answered :
      {d : ℕ} {ms : List Message} → Dialogue (Answered d) lines [] ms → ChatOutcome lines ms
  not_sent :
      {d : ℕ} {q : Text} {rest : List Text} {ms : List Message}
      → Dialogue (Answered d) lines (q ∷ rest) ms
      → ChatOutcome lines (unsaid d q ∷ ms)
  not_answered :
      {d : ℕ} {q : Text} {rest : List Text} {ms : List Message}
      → Dialogue (Answered d) lines (q ∷ rest) ms
      → ChatOutcome lines (said d q ∷ ms)

-- An early exit has neither sent nor received.
abbrev pub DigitsOutcome : ℕ → Option ℕ × Log → Type 0
DigitsOutcome n (none, l) = (d : ℕ) × Dialogue (Attempted d) (replicate n digits) [] (talk l)
DigitsOutcome n (some status, l) = (status ≡ 0) × (talk l ≡ [])

abbrev pub BookOutcome : ℕ × Log → Type 0
BookOutcome (zero, l) = AllClosed l × ((d : ℕ) × Dialogue (MaybeAnswered d) books [] (talk l))
BookOutcome (suc _, l) = talk l ≡ []

abbrev pub LineOutcome : List Text → ℕ × Log → Type 0
LineOutcome lines (zero, l) = AllClosed l × ((d : ℕ) × Dialogue (MaybeShown d) lines [] (talk l))
LineOutcome lines (suc _, l) = talk l ≡ []

sole_socket :
    (d : ℕ) (l : Log) → ((j : ℕ) → opened l j ≡ (if j == d then true else false)) → OnlyOpen d l
sole_socket d l h = record { others = λ j p. ground (arith, h j, p) }

all_closed :
    {d : ℕ} {l : Log} → OnlyOpen d l → (j : ℕ) → (if j == d then false else opened l j) ≡ false
all_closed {d = d} o j = elim (Bool-cases (j == d)) [
  | inl q ↦ ground arith
  | inr q ↦ ground (arith, o.others j q)
]

module _ (env : Env) where
  line_loop-Dialogue :
      (d : ℕ) (qs rest : List Text) (l : Log)
      → OnlyOpen d l
      → Dialogue (MaybeShown d) qs rest (talk l)
      → Yields
          (λ (_, l'). OnlyOpen d l' × Dialogue (MaybeShown d) qs [] (talk l'))
          (line_loop env d rest l)
  unfolding line_loop
  line_loop-Dialogue d qs [] l o h = yields (o, h)
  line_loop-Dialogue d qs (q ∷ rest) l o h =
      by_receive env _ _ _ _ _
        (line_loop-Dialogue d qs rest _ (record { others = o.others }) (turn q _ (unanswered _) h))
        λ b _.
          line_loop-Dialogue d qs rest _ (record { others = o.others })
            (turn q _ (answered _ _ b) h)

  -- client_unix.c, whatever the system answers: it ends; with status 0 it has tried to send all its lines
  -- in their order, none of whose writes it checks, and to show what it received after one before the
  -- next, and closed its socket; else it has neither sent nor received.
  pub line_main-LineOutcome :
      (lines : List Text) → Yields (LineOutcome lines) (line_main env lines [])
  unfolding line_main
  line_main-LineOutcome lines = by_attempt env _ _ _ _ (yields refl) λ d.
      by_attempt env _ _ _ _ (yields refl) λ _. by_attempt env _ _ _ _ (yields refl) λ _.
        Yields-follow (line_loop-Dialogue d lines lines _ (sole_socket d _ (λ j. refl)) opening)
          λ _ _ (o, h). yields (λ j. all_closed o j, (d, h))
