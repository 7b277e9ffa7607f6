-- ===== src/Sessions/Servers/Replies.antt =====
-- socket_server.cpp, server.c and server_unix.c: what is answered to each text that is read, and
-- which sockets are open.
use miscellaneous.Base.{
  ℕ, zero, suc, ◌<◌, refl, ◌+◌, ◌≤◌, ◌≡◌, ap, ◌⊎◌, inl, inr, arith, Bool, true, false, some, List,
  [], ◌∷◌, ◌++◌, map, Text, text, length, replicate,
}
use miscellaneous.Base.Run.{Yields, yields}
use miscellaneous.Base.Prog.{Yields-follow}
use miscellaneous.Sessions.Calls.{
  socket, bind, listen, called, Log, Env, by_attempt, by_text, by_print, over, over-null, buffer_of,
  buffer_of-null,
}
use miscellaneous.Sessions.Ledger.{
  talk, OnlyOpen, OnlyTwoOpen, Answered, start, ended, Message, got, unsaid, Succeeds, MayFail,
  Terminated, Short, Sends,
}
use miscellaneous.Sessions.Servers.{
  got_it, answer_loop, answer_main, confirm_loop, confirm_rounds, confirm_main, upper_loop,
  upper_rounds, upper_main,
}
use miscellaneous.Sessions.Servers.Answers.{
  Answers, after_end, after_round, after_failure, after_accept, after_close, accepted, closed,
  Enough, next-Enough, fuel_left, not_exhausted,
}

-- What socket_server.cpp, server.c and server_unix.c reply to a text: "got it" with its null; the text
-- and zeros up to 257 bytes; the text in capitals.
abbrev pub IsGotIt : Text → Text → Type 0
IsGotIt b reply = reply ≡ text "got it" ++ (0 ∷ [])

pub record IsEcho (b reply : Text) : Type 0 where
  pub zeros : ℕ
  pub padded : reply ≡ b ++ replicate zeros 0
  pub size : length b + zeros ≡ 257

abbrev pub IsUpper : (ℕ → ℕ) → Text → Text → Type 0
IsUpper toupper b reply = reply ≡ map toupper b

-- With status 0 every text has its reply; else nothing was read, or the reply to the last one failed.
abbrev pub AnswerOutcome : ℕ × Log → Type 0
AnswerOutcome (zero, l) = Answered IsGotIt Succeeds (talk l)
AnswerOutcome (suc _, l) =
    (talk l ≡ [])
    ⊎ ((d : ℕ) × (b : Text) × (reply : Text) × (ms : List Message) × (talk l
          ≡ unsaid d reply ∷ got d b ∷ ms)
        × IsGotIt b reply
        × Answered IsGotIt Succeeds ms)

module _ (env : Env) (n : ℕ) (finite : Sends n env) (terminated : Terminated env) where
  answer_loop-Outcome :
      (fuel : ℕ) (buffer : Text) (rfd : ℕ) (l : Log)
      → Enough n fuel l
      → Answers IsGotIt Succeeds n l
      → Yields AnswerOutcome (answer_loop env fuel buffer rfd l)
  unfolding answer_loop
  answer_loop-Outcome zero buffer rfd l e a = absurd (not_exhausted e a.within)
  answer_loop-Outcome (suc fuel) buffer rfd l e a =
      by_text env _ _ _ _ _ _ (yields a.answered) (yields (ended rfd a.answered)) λ c b eq.
        by_print (over (c ∷ b) buffer) _ _ (over-null (c ∷ b) buffer (terminated l rfd 256 c b eq))
          (by_attempt env _ _ _ _
            (yields (inr (rfd, c ∷ b, got_it, talk l, refl, refl, a.answered)))
            λ r.
              answer_loop-Outcome fuel _ rfd _ (next-Enough e)
                (after_round env n finite a rfd 256 c b eq got_it (some r) tt refl))

  -- socket_server.cpp, when the other ends send at most `n` texts in all, each with a null in it: with more
  -- fuel than that it ends, and no string is printed past its end. With status 0 it has written "got it"
  -- to each text that it read, at once and on the same descriptor; with another it has read nothing, or
  -- the write of the reply to the last text failed, after replies to all before.
  pub answer_main-Answered :
      (fuel : ℕ) (has_port : Bool)
      → n < fuel
      → Yields AnswerOutcome (answer_main env fuel has_port [])
  unfolding answer_main
  answer_main-Answered fuel false h = yields (inl refl)
  answer_main-Answered fuel true h = by_attempt env _ _ _ _ (yields (inl refl)) λ sfd.
      by_attempt env _ _ _ _ (yields (inl refl)) λ _.
        by_attempt env _ _ _ _ (yields (inl refl)) λ rfd.
          answer_loop-Outcome fuel [] rfd _ (fuel_left h)
            (record { answered = start; within = omega arith })

zeros_after :
    (size : ℕ) (b : Text)
    → length b ≤ size
    → (k : ℕ) × (buffer_of size b ≡ b ++ replicate k 0) × (length b + k ≡ size)
zeros_after zero [] h = (0, refl, refl)
zeros_after zero (c ∷ b) h = absurd (omega (arith, h))
zeros_after (suc size) [] h =
    let (k, e, f) = zeros_after size [] (omega arith) in
    (suc k, ap (λ t. 0 ∷ t) e, omega (arith, f))
zeros_after (suc size) (c ∷ b) h =
    let (k, e, f) = zeros_after size b (omega (arith, h)) in
    (k, ap (λ t. c ∷ t) e, omega (arith, f))

buffer_of-IsEcho : (b : Text) → length b < 257 → IsEcho b (buffer_of 257 b)
buffer_of-IsEcho b h =
    let (k, e, f) = zeros_after 257 b (omega (arith, h)) in
    record { zeros = k; padded = e; size = f }

module _ (env : Env) (n : ℕ) (finite : Sends n env) (short : Short env) where
  -- A connection of server.c, after `accept`.
  confirm_loop-Answers :
      (i fd c : ℕ) (l : Log)
      → OnlyTwoOpen fd c l
      → Answers IsEcho MayFail n l
      → Yields
          (λ (_, l'). OnlyTwoOpen fd c l' × Answers IsEcho MayFail n l')
          (confirm_loop env i c l)
  unfolding confirm_loop
  confirm_loop-Answers zero fd c l o a = yields (o, a)
  confirm_loop-Answers (suc i) fd c l o a =
      by_text env _ _ _ _ _ _
        (confirm_loop-Answers i fd c _ (record { others = o.others }) (after_failure a))
        (confirm_loop-Answers i fd c _ (record { others = o.others }) (after_end env n finite a c))
        λ x b eq.
          let fits = short l c 257 (x ∷ b) eq in
          by_print (buffer_of 257 (x ∷ b)) _ _ (buffer_of-null 257 (x ∷ b) fits) (
            confirm_loop-Answers i fd c _ (record { others = o.others })
              (after_round env n finite a c 257 x b eq _ _ tt (buffer_of-IsEcho (x ∷ b) fits)))

  confirm_rounds-Answers :
      (m fd : ℕ) (l : Log)
      → OnlyOpen fd l
      → Answers IsEcho MayFail n l
      → Yields (λ (_, l'). OnlyOpen fd l' × Answers IsEcho MayFail n l') (confirm_rounds env m fd l)
  unfolding confirm_rounds
  confirm_rounds-Answers zero fd l o a = yields (o, a)
  confirm_rounds-Answers (suc m) fd l o a =
      by_attempt env _ _ _ _
        (confirm_rounds-Answers m fd _ (record { others = o.others }) (after_accept a))
        λ c.
          Yields-follow (confirm_loop-Answers 3 fd c _ (accepted o) (after_accept a))
            λ _ l' (o', a'). confirm_rounds-Answers m fd _ (closed o') (after_close a')

  -- server.c, when the other ends send at most `n` texts in all, none longer than 256 bytes, after any
  -- number of rounds of its loop: no string is printed past its end; to each text that it read it has
  -- written a reply, whether or not the write succeeded, which it does not look at: the text and zeros
  -- up to 257 bytes, at once and on the same descriptor; and no socket is open but the one that listens.
  pub confirm_main-Answered :
      (m : ℕ)
      → Yields
          (λ (status, l). Answered IsEcho MayFail (talk l) × ((fd : ℕ) × OnlyOpen fd l))
          (confirm_main env m [])
  unfolding confirm_main
  confirm_main-Answered m =
      by_attempt env _ _ _ _ (yields (start, (0, record { others = λ j p. refl }))) λ fd.
        by_attempt env _ _ _ _ (yields (start, (fd, record { others = λ j p. ground (arith, p) })))
          λ r.
            by_attempt env _ _ _ _
              (yields (start, (fd, record { others = λ j p. ground (arith, p) })))
              λ r'.
                Yields-follow
                  (confirm_rounds-Answers m fd
                    (called (listen fd) (some r')
                      ∷ called (bind fd) (some r)
                      ∷ called socket (some fd)
                      ∷ [])
                    (record { others = λ j p. ground (arith, p) })
                    (record { answered = start; within = omega arith }))
                  λ _ _ (o, a). yields (a.answered, (fd, o))

module _ (env : Env) (n : ℕ) (finite : Sends n env) (terminated : Terminated env)
    (toupper : ℕ → ℕ) where
  upper_loop-Answers :
      (fuel : ℕ) (buf : Text) (fd c : ℕ) (l : Log)
      → OnlyTwoOpen fd c l
      → Enough n fuel l
      → Answers (IsUpper toupper) MayFail n l
      → Yields
          (λ (_, l'). OnlyTwoOpen fd c l' × Answers (IsUpper toupper) MayFail n l')
          (upper_loop env toupper fuel buf c l)
  unfolding upper_loop
  upper_loop-Answers zero buf fd c l o e a = absurd (not_exhausted e a.within)
  upper_loop-Answers (suc fuel) buf fd c l o e a =
      by_text env _ _ _ _ _ _ (yields (record { others = o.others }, after_failure a))
        (yields (record { others = o.others }, after_end env n finite a c))
        λ x b eq.
          by_print (over (x ∷ b) buf) _ _ (over-null (x ∷ b) buf (terminated l c 80 x b eq)) (
            upper_loop-Answers fuel _ fd c _ (record { others = o.others }) (next-Enough e)
              (after_round env n finite a c 80 x b eq _ _ tt refl))

  module _ (fuel : ℕ) (enough_fuel : n < fuel) where
    upper_rounds-Answers :
        (m : ℕ) (buf : Text) (fd : ℕ) (l : Log)
        → OnlyOpen fd l
        → Answers (IsUpper toupper) MayFail n l
        → Yields
            (λ (_, l'). OnlyOpen fd l' × Answers (IsUpper toupper) MayFail n l')
            (upper_rounds env toupper fuel m buf fd l)
    unfolding upper_rounds
    upper_rounds-Answers zero buf fd l o a = yields (o, a)
    upper_rounds-Answers (suc m) buf fd l o a =
        by_attempt env _ _ _ _
          (upper_rounds-Answers m buf fd _ (record { others = o.others }) (after_accept a))
          λ c.
            Yields-follow
              (upper_loop-Answers fuel buf fd c _ (accepted o) (fuel_left enough_fuel)
                (after_accept a))
              λ buf' _ (o', a'). upper_rounds-Answers m buf' fd _ (closed o') (after_close a')

    -- server_unix.c, when the other ends send at most `n` texts in all, each with a null in it, after any
    -- number of rounds of its outer loop: with more fuel than `n` the inner loops end, and no string is
    -- printed past its end; to each text that was read its capitals have been written, whether or not the
    -- write succeeded, which the server does not look at, at once and on the same descriptor; and no socket
    -- is open but the one that listens.
    pub upper_main-Answered :
        (m : ℕ)
        → Yields
            (λ (status, l).
              Answered (IsUpper toupper) MayFail (talk l) × ((fd : ℕ) × OnlyOpen fd l))
            (upper_main env toupper fuel m [])
    unfolding upper_main
    upper_main-Answered m =
        by_attempt env _ _ _ _ (yields (start, (0, record { others = λ j p. refl }))) λ fd.
          by_attempt env _ _ _ _
            (yields (start, (fd, record { others = λ j p. ground (arith, p) })))
            λ r.
              by_attempt env _ _ _ _
                (yields (start, (fd, record { others = λ j p. ground (arith, p) })))
                λ r'.
                  Yields-follow
                    (upper_rounds-Answers m [] fd
                      (called (listen fd) (some r')
                        ∷ called (bind fd) (some r)
                        ∷ _
                        ∷ called socket (some fd)
                        ∷ [])
                      (record { others = λ j p. ground (arith, p) })
                      (record { answered = start; within = omega arith }))
                    λ _ _ (o, a). yields (a.answered, (fd, o))
