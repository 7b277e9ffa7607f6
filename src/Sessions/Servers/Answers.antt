-- ===== src/Sessions/Servers/Answers.antt =====
-- The servers: that all is answered so far, what is open, and the fuel that is left.
use miscellaneous.Base.{
  ◌==◌, inl, inr, Bool-cases, ℕ, zero, suc, ◌+◌, ◌≡◌, ◌<◌, ◌≤◌, arith, Option, none, some, [], ◌∷◌,
  Text,
}
use miscellaneous.Sessions.Calls.{accept, close, write, called, received, Log, Env}
use miscellaneous.Sessions.Ledger.{
  talk, OnlyOpen, OnlyTwoOpen, Answered, ended, round, reads, Sends,
}

-- All is answered, and at most `n` texts have been read.
pub record Answers (Reply : Text → Text → Type 0) (Writes : Option ℕ → Type 0) (n : ℕ) (l : Log)
    : Type 0 where
  pub answered : Answered Reply Writes (talk l)
  pub within : reads l ≤ n

module _ (env : Env) (n : ℕ) (finite : Sends n env) {Reply : Text → Text → Type 0}
    {Writes : Option ℕ → Type 0} where
  module _ {l : Log} (a : Answers Reply Writes n l) (d : ℕ) where
    pub after_end : Answers Reply Writes n (received d (some []) ∷ l)
    after_end = record { answered = ended d a.answered; within = a.within }

    module _ (size c : ℕ) (b : Text) (eq : env.bytes l d size ≡ some (c ∷ b)) (reply : Text)
        (r : Option ℕ) (w : Writes r) (h : Reply (c ∷ b) reply) where
      pub after_round :
          Answers Reply Writes n (called (write d reply) r ∷ received d (some (c ∷ b)) ∷ l)
      after_round = record {
        answered = round d c b reply a.answered w h;
        within = below (finite l d size c b eq);
      }
        where
          below : {r n : ℕ} → r < n → suc r ≤ n
          below h = omega arith

module _ {Reply : Text → Text → Type 0} {Writes : Option ℕ → Type 0} {n : ℕ} {l : Log}
    (a : Answers Reply Writes n l) where
  pub after_failure : {d : ℕ} → Answers Reply Writes n (received d none ∷ l)
  after_failure = record { answered = a.answered; within = a.within }

  pub after_accept : {d : ℕ} {r : Option ℕ} → Answers Reply Writes n (called (accept d) r ∷ l)
  after_accept = record { answered = a.answered; within = a.within }

  pub after_close : {d : ℕ} {r : Option ℕ} → Answers Reply Writes n (called (close d) r ∷ l)
  after_close = record { answered = a.answered; within = a.within }

pub accepted :
    {fd c d : ℕ} {l : Log} → OnlyOpen fd l → OnlyTwoOpen fd c (called (accept d) (some c) ∷ l)
accepted o = record { others = λ j p q. ground (arith, o.others j p) }

pub closed :
    {fd c : ℕ} {r : Option ℕ} {l : Log} → OnlyTwoOpen fd c l → OnlyOpen fd (called (close c) r ∷ l)
closed {c = c} o = record {
  others = λ j p. elim (Bool-cases (j == c)) [
    | inl q ↦ ground arith
    | inr q ↦ ground (arith, o.others j p q)
  ];
}

-- The fuel is more than what is still to come.
pub data Enough (n fuel : ℕ) (l : Log) : Type 0 where
  enough : n < reads l + fuel → Enough n fuel l

pub next-Enough :
    {n fuel d c : ℕ} {b t : Text} {r : Option ℕ} {l : Log}
    → Enough n (suc fuel) l
    → Enough n fuel (called (write d t) r ∷ received d (some (c ∷ b)) ∷ l)
next-Enough (enough h) = enough (omega arith)

pub fuel_left : {n fuel : ℕ} {l : Log} → n < fuel → Enough n fuel l
fuel_left h = enough (omega arith)

-- A loop is entered with some fuel left.
pub not_exhausted : {n : ℕ} {l : Log} → Enough n zero l → reads l ≤ n → ⊥
not_exhausted (enough h) g = omega arith
