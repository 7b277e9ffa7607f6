-- ===== src/Dates/Calendar.antt =====
-- What main.cpp's regular expression for dates stands for, in terms of numbers.
use miscellaneous.Base.{
  ℕ, ◌+◌, ◌*◌, ◌-◌, ◌≤◌, ◌≡◌, refl, ap, arith, Text, All, List, [], ◌∷◌, ◌++◌, length, ℕ_discrete,
  dec_lt,
}
use miscellaneous.Base.Digits.{number, IsDigit}
use miscellaneous.Dates.{small, year_regex, month_regex, day_regex}
use miscellaneous.Dates.Language.{Matches}

-- Between `low` and `high` digits, of a value.
pub record IsNumeral (low high : ℕ) (s : Text) (n : ℕ) : Type 0 where
  pub digits_only : All IsDigit s
  pub long : low ≤ length s
  pub short : length s ≤ high
  pub value : number s 0 ≡ n

-- The line is a date as the program means it: four digits, a month and a day.
pub record IsDate (str : Text) (year month day : ℕ) : Type 0 where
  pub y : Text
  pub m : Text
  pub d : Text
  pub splits : str ≡ y ++ (b'/' ∷ (m ++ (b'/' ∷ d)))
  pub in_year : IsNumeral 4 4 y year
  pub in_month : IsNumeral 1 2 m month
  pub in_day : IsNumeral 1 2 d day
  pub month_low : 1 ≤ month
  pub month_high : month ≤ 12
  pub day_low : 1 ≤ day
  pub day_high : day ≤ 31

-- One or two digits, of a value from 1 on.
pub record IsSmall (limit : ℕ) (s : Text) : Type 0 where
  pub numeral : IsNumeral 1 2 s (number s 0)
  pub low : 1 ≤ number s 0
  pub high : number s 0 ≤ limit

one_digit : (limit c : ℕ) → b'1' ≤ c → c ≤ b'9' → 9 ≤ limit → IsSmall limit (c ∷ [])
one_digit limit c p q h = record {
  numeral = record {
    digits_only = ((omega (arith, p), q), tt);
    long = omega arith;
    short = omega arith;
    value = refl;
  };
  low = omega (arith, p);
  high = omega (arith, q, h);
}

two_digits :
    (limit b c : ℕ)
    → IsDigit b
    → IsDigit c
    → 1 ≤ (b - b'0') * 10 + (c - b'0')
    → (b - b'0') * 10 + (c - b'0') ≤ limit
    → IsSmall limit (b ∷ c ∷ [])
two_digits limit b c p q h g = record {
  numeral = record {
    digits_only = (p, (q, tt));
    long = omega arith;
    short = omega arith;
    value = refl;
  };
  low = omega (arith, h);
  high = omega (arith, g);
}

small-IsSmall :
    {cs : List Text} {s : Text} (limit : ℕ)
    → 9 ≤ limit
    → Matches small cs s
    → (cs ≡ []) × IsSmall limit s
small-IsSmall limit h (Matches.seq Matches.opt_none (Matches.range {c} p q)) =
    (refl, one_digit limit c p q h)
small-IsSmall limit h
      (Matches.seq (Matches.opt_some (Matches.range {c = b} p q)) (Matches.range {c} p' q')) =
    (
      refl,
      two_digits limit b c (omega (arith, p), omega (arith, q)) (omega (arith, p'), q')
          (omega (arith, p, p')) (omega (arith, q, q', h)),
    )

pub month-IsSmall :
    {cs : List Text} {s : Text} → Matches month_regex cs s → (cs ≡ s ∷ []) × IsSmall 12 s
month-IsSmall {s} (Matches.group (Matches.alt_left a)) =
    let (e, b) = small-IsSmall 12 (omega arith) a in (ap (λ ds. s ∷ ds) e, b)
month-IsSmall
      (Matches.group
        (Matches.alt_right (Matches.seq (Matches.range {c = b} p q) (Matches.range {c} p' q')))) =
    (
      refl,
      two_digits 12 b c (omega (arith, p), omega (arith, q)) (p', omega (arith, q'))
          (omega (arith, p)) (omega (arith, q, q')),
    )

pub day-IsSmall :
    {cs : List Text} {s : Text} → Matches day_regex cs s → (cs ≡ s ∷ []) × IsSmall 31 s
day-IsSmall {s} (Matches.group (Matches.alt_left a)) =
    let (e, b) = small-IsSmall 31 (omega arith) a in (ap (λ ds. s ∷ ds) e, b)
day-IsSmall
      (Matches.group (
        Matches.alt_right
          (Matches.alt_left (Matches.seq (Matches.range {c = b} p q) (Matches.range {c} p' q'))))) =
    (
      refl,
      two_digits 31 b c (omega (arith, p), omega (arith, q)) (p', q') (omega (arith, p))
          (omega (arith, q, q')),
    )
day-IsSmall
      (Matches.group (
        Matches.alt_right (
          Matches.alt_right (Matches.seq (Matches.range {c = b} p q) (Matches.range {c} p' q'))))) =
    (
      refl,
      two_digits 31 b c (omega (arith, p), omega (arith, q)) (p', omega (arith, q'))
          (omega (arith, p)) (omega (arith, q, q')),
    )

pub year-IsNumeral :
    {cs : List Text} {s : Text}
    → Matches year_regex cs s
    → (cs ≡ s ∷ []) × IsNumeral 4 4 s (number s 0)
year-IsNumeral
      (Matches.group (
        Matches.seq (Matches.range a b) (
          Matches.seq (Matches.range c d) (Matches.seq (Matches.range e f) (Matches.range g h))))) =
    (
      refl,
      record {
        digits_only = ((a, b), ((c, d), ((e, f), ((g, h), tt))));
        long = omega arith;
        short = omega arith;
        value = refl;
      },
    )

-- The other direction.
small-Matches : (b c : ℕ) → b ≡ b'0' → b'1' ≤ c → c ≤ b'9' → Matches small [] (b ∷ c ∷ [])
small-Matches b c e p q =
    Matches.seq (Matches.opt_some (Matches.range (omega (arith, e)) (omega (arith, e))))
      (Matches.range p q)

pub month-Matches : (s : Text) → IsSmall 12 s → Matches month_regex (s ∷ []) s
month-Matches [] h = absurd (omega (arith, h.numeral.long))
month-Matches (c ∷ []) h = Matches.group (
    Matches.alt_left (
      Matches.seq Matches.opt_none
        (Matches.range (omega (arith, h.low)) h.numeral.digits_only.0.1)))
month-Matches (b ∷ c ∷ []) h = elim (ℕ_discrete b b'0') [
  | yes e ↦
      Matches.group (
        Matches.alt_left
          (small-Matches b c e (omega (arith, e, h.low)) h.numeral.digits_only.1.0.1))
  | no e ↦ Matches.group (
      Matches.alt_right (
        Matches.seq
          (Matches.range (omega (arith, e, h.numeral.digits_only.0.0)) (omega (arith, h.high)))
          (Matches.range h.numeral.digits_only.1.0.0
            (omega (arith, e, h.numeral.digits_only.0.0, h.high)))))
]
month-Matches (b ∷ c ∷ d ∷ s) h = absurd (omega (arith, h.numeral.short))

pub day-Matches : (s : Text) → IsSmall 31 s → Matches day_regex (s ∷ []) s
day-Matches [] h = absurd (omega (arith, h.numeral.long))
day-Matches (c ∷ []) h = Matches.group (
    Matches.alt_left (
      Matches.seq Matches.opt_none
        (Matches.range (omega (arith, h.low)) h.numeral.digits_only.0.1)))
day-Matches (b ∷ c ∷ []) h = elim (ℕ_discrete b b'0') [
  | yes e ↦
      Matches.group (
        Matches.alt_left
          (small-Matches b c e (omega (arith, e, h.low)) h.numeral.digits_only.1.0.1))
  | no e ↦ elim (dec_lt b b'3') [
    | yes l ↦ Matches.group (
        Matches.alt_right (
          Matches.alt_left (
            Matches.seq
              (Matches.range (omega (arith, e, h.numeral.digits_only.0.0)) (omega (arith, l)))
              (Matches.range h.numeral.digits_only.1.0.0 h.numeral.digits_only.1.0.1))))
    | no l ↦ Matches.group (
        Matches.alt_right (
          Matches.alt_right (
            Matches.seq (Matches.range (omega (arith, l)) (omega (arith, h.high)))
              (Matches.range h.numeral.digits_only.1.0.0 (omega (arith, l, h.high))))))
  ]
]
day-Matches (b ∷ c ∷ d ∷ s) h = absurd (omega (arith, h.numeral.short))

pub year-Matches : (s : Text) (n : ℕ) → IsNumeral 4 4 s n → Matches year_regex (s ∷ []) s
year-Matches [] n h = absurd (omega (arith, h.long))
year-Matches (a ∷ []) n h = absurd (omega (arith, h.long))
year-Matches (a ∷ b ∷ []) n h = absurd (omega (arith, h.long))
year-Matches (a ∷ b ∷ c ∷ []) n h = absurd (omega (arith, h.long))
year-Matches (a ∷ b ∷ c ∷ d ∷ []) n h =
    let (p, (q, (r, (t, u)))) = h.digits_only in
    Matches.group (
      Matches.seq (Matches.range p.0 p.1) (
        Matches.seq (Matches.range q.0 q.1)
          (Matches.seq (Matches.range r.0 r.1) (Matches.range t.0 t.1))))
year-Matches (a ∷ b ∷ c ∷ d ∷ e ∷ s) n h = absurd (omega (arith, h.short))
