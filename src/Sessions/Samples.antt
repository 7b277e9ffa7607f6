-- ===== src/Sessions/Samples.antt =====
-- Another end for the tests of the small socket programs: it gives a text when there is room for it.
use miscellaneous.Base.{
  ℕ, ◌<◌, ◌≡◌, ap, Bool-cases, inl, inr, ltb, ltb→lt, if◌then◌else◌, Option, none, some, Text,
  length,
}

abbrev pub limit : ℕ → Text → Option Text
limit size b = if ltb (length b) size then some b else none

pub limit-some : (size : ℕ) (b t : Text) → limit size b ≡ some t → (b ≡ t) × (length t < size)
limit-some size b t e = elim (Bool-cases (ltb (length b) size)) [
  | inl h ↦
      let both : some b ≡ some t = cc (e, ap (λ x. if x then some b else none) h) in
      let same : b ≡ t = cc both in (same, rw (← same) (ltb→lt (length b) size h))
  | inr h ↦ absurd (cc (e, ap (λ x. if x then some b else none) h))
]
