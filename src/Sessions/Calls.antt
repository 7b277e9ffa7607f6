-- ===== src/Sessions/Calls.antt =====
-- The calls that the small socket programs make of the system, and programs that make them: each
-- call is written to a log, and the system's answer to it may depend on all that the log holds.
use miscellaneous.Base.{
  ℕ, zero, suc, ◌<◌, ◌≡◌, refl, sym, ap, ◌∙◌, inl, inr, Bool-cases, arith, Bool, true, false, ◌||◌,
  ◌==◌, if◌then◌else◌, Option, none, some, List, [], ◌∷◌, Text, length,
}
use miscellaneous.Base.Run.{fault, out_of_fuel, Yields}
pub use miscellaneous.Base.Prog.{Prog, follow, ◌>>=◌, ◌>>◌, return}

pub data Call : Type 0 where
  socket host_by_name unlink usleep : Call
  set_option bind listen accept connect peer_name close : ℕ → Call
  -- With the descriptor -1.
  close_invalid connect_invalid : Call
  write : ℕ → Text → Call
  -- `write` to the standard output
  show : Text → Call

-- A call with its result, and a call of `read` or `recv` with the bytes that it gives. There is no
-- result when the call fails.
pub data Event : Type 0 where
  called : Call → Option ℕ → Event
  received : ℕ → Option Text → Event

-- The last call first.
abbrev pub Log : Type 0
Log = List Event

pub record Env : Type 0 where
  pub result : Log → Call → Option ℕ
  -- The bytes that are read from a descriptor, at most so many.
  pub bytes : Log → ℕ → ℕ → Option Text

module _ {A : Type 0} where
  pub on_result : Call → Prog Log A → (ℕ → Prog Log A) → Option ℕ → Prog Log A
  on_result c fail rest none l = fail (called c none ∷ l)
  on_result c fail rest (some r) l = rest r (called c (some r) ∷ l)

  pub on_bytes : ℕ → Prog Log A → (Text → Prog Log A) → Option Text → Prog Log A
  on_bytes d fail rest none l = fail (received d none ∷ l)
  on_bytes d fail rest (some b) l = rest b (received d (some b) ∷ l)

abbrev pub exhausted : {A : Type 0} → Prog Log A
exhausted l = out_of_fuel

-- A buffer of zeros after `b` has been read into it.
abbrev pub buffer_of : ℕ → Text → Text
buffer_of zero b = []
buffer_of (suc size) [] = 0 ∷ buffer_of size []
buffer_of (suc size) (c ∷ b) = c ∷ buffer_of size b

-- What is known of a buffer after `b` has been read over it.
abbrev pub over : Text → Text → Text
over [] buf = buf
over (c ∷ b) [] = c ∷ b
over (c ∷ b) (d ∷ buf) = c ∷ over b buf

abbrev pub has_null : Text → Bool
has_null [] = false
has_null (c ∷ b) = c == 0 || has_null b

-- A buffer is printed as a string: without a null in it, what comes after it is read.
unfoldable pub print_string : {A : Type 0} → Text → Prog Log A → Prog Log A
print_string buf rest l = if has_null buf then rest l else fault

-- What is done when nothing was read, and what else.
unfoldable pub on_text : {A : Type 0} → Prog Log A → (Text → Prog Log A) → Text → Prog Log A
on_text end rest [] = end
on_text end rest (c ∷ b) = rest (c ∷ b)

module _ (env : Env) {A : Type 0} where
  -- A call, what is done when it fails, and what else.
  unfoldable pub attempt : Call → Prog Log A → (ℕ → Prog Log A) → Prog Log A
  unfolding on_result
  attempt c fail rest l = on_result c fail rest (env.result l c) l

  unfoldable pub receive : ℕ → ℕ → Prog Log A → (Text → Prog Log A) → Prog Log A
  unfolding on_bytes
  receive d size fail rest l = on_bytes d fail rest (env.bytes l d size) l

  -- A call whose result is not looked at.
  abbrev pub ignore : Call → Prog Log A → Prog Log A
  ignore c rest l = rest (called c (env.result l c) ∷ l)

  module _ {P : A × Log → Type 0} where
    pub by_attempt :
        (c : Call) (fail : Prog Log A) (rest : ℕ → Prog Log A) (l : Log)
        → Yields P (fail (called c none ∷ l))
        → ((r : ℕ) → Yields P (rest r (called c (some r) ∷ l)))
        → Yields P (attempt c fail rest l)
    unfolding attempt on_result
    by_attempt c fail rest l h g = by_result (env.result l c)
      where
        by_result : (o : Option ℕ) → Yields P (on_result c fail rest o l)
        by_result none = h
        by_result (some r) = g r

    pub by_receive :
        (d size : ℕ) (fail : Prog Log A) (rest : Text → Prog Log A) (l : Log)
        → Yields P (fail (received d none ∷ l))
        → ((b : Text) → env.bytes l d size ≡ some b → Yields P (rest b (received d (some b) ∷ l)))
        → Yields P (receive d size fail rest l)
    unfolding receive on_bytes
    by_receive d size fail rest l h g = by_bytes (env.bytes l d size) refl
      where
        by_bytes : (o : Option Text) → env.bytes l d size ≡ o → Yields P (on_bytes d fail rest o l)
        by_bytes none eq = h
        by_bytes (some b) eq = g b eq

    pub by_text :
        (d size : ℕ) (fail end : Prog Log A) (rest : Text → Prog Log A) (l : Log)
        → Yields P (fail (received d none ∷ l))
        → Yields P (end (received d (some []) ∷ l))
        → ((c : ℕ) (b : Text)
            → env.bytes l d size ≡ some (c ∷ b)
            → Yields P (rest (c ∷ b) (received d (some (c ∷ b)) ∷ l)))
        → Yields P (receive d size fail (on_text end rest) l)
    unfolding on_text
    by_text d size fail end rest l h e g = by_receive d size fail (on_text end rest) l h by_length
      where
        by_length :
            (b : Text)
            → env.bytes l d size ≡ some b
            → Yields P (on_text end rest b (received d (some b) ∷ l))
        by_length [] eq = e
        by_length (c ∷ b) eq = g c b eq

pub by_print :
    {A : Type 0} {P : A × Log → Type 0} (buf : Text) (rest : Prog Log A) (l : Log)
    → has_null buf ≡ true
    → Yields P (rest l)
    → Yields P (print_string buf rest l)
unfolding print_string
by_print buf rest l h y = rw h y

pub over-null : (b buf : Text) → has_null b ≡ true → has_null (over b buf) ≡ true
over-null [] buf h = absurd (cc h)
over-null (c ∷ b) [] h = h
over-null (c ∷ b) (d ∷ buf) h = elim (Bool-cases (c == 0)) [
  | inl e ↦ rw e refl
  | inr e ↦ rw e (over-null b buf (sym (ap (λ x. x || has_null b) e) ∙ h))
]

pub buffer_of-null : (size : ℕ) (b : Text) → length b < size → has_null (buffer_of size b) ≡ true
buffer_of-null zero b h = absurd (omega (arith, h))
buffer_of-null (suc size) [] h = refl
buffer_of-null (suc size) (c ∷ b) h = elim (Bool-cases (c == 0)) [
  | inl e ↦ rw e refl
  | inr e ↦ rw e (buffer_of-null size b (omega (arith, h)))
]
