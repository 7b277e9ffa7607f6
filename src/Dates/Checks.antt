-- ===== src/Dates/Checks.antt =====
-- main.cpp's loop that checks dates, line by line.
use miscellaneous.Base.{
  ℕ, ◌^◌, ◌≤◌, ◌<◌, ◌≡◌, refl, inl, inr, arith, Bool-cases, Option-cases, lt→ltb, if◌then◌else◌,
  Text, All, List, [], ◌∷◌, ◌++◌, length, some,
}
use miscellaneous.Base.Digits.{number, IsDigit, digits-All}
use miscellaneous.Dates.{stoi, date_regex, regex_match, Answer, is_quit, check_date, check_dates}
use miscellaneous.Dates.Language.{Matches, regex_match-some, regex_match-Matches}
use miscellaneous.Dates.Calendar.{
  IsNumeral, IsDate, IsSmall, year-IsNumeral, month-IsSmall, day-IsSmall, year-Matches,
  month-Matches, day-Matches,
}

number-short : (s : Text) → All IsDigit s → length s ≤ 4 → number s 0 < 2 ^ 31
number-short [] h g = omega arith
number-short (a ∷ []) (p, u) g = omega (arith, p)
number-short (a ∷ b ∷ []) (p, (q, u)) g = omega (arith, p, q)
number-short (a ∷ b ∷ c ∷ []) (p, (q, (r, u))) g = omega (arith, p, q, r)
number-short (a ∷ b ∷ c ∷ d ∷ []) (p, (q, (r, (t, u)))) g = omega (arith, p, q, r, t)
number-short (a ∷ b ∷ c ∷ d ∷ e ∷ s) h g = absurd (omega (arith, g))

stoi-numeral :
    (low high : ℕ) (s : Text) (n : ℕ)
    → 1 ≤ low
    → high ≤ 4
    → IsNumeral low high s n
    → stoi s ≡ some n
unfolding stoi
stoi-numeral low high [] n p q h = absurd (omega (arith, p, h.long))
stoi-numeral low high (c ∷ s) n p q h =
    let fits = number-short (c ∷ s) h.digits_only (omega (arith, q, h.short)) in
    rw (digits-All (c ∷ s) h.digits_only, lt→ltb (number (c ∷ s) 0) (2 ^ 31) fits, h.value) refl

-- The parts of a date, as texts.
record Parts (cs : List Text) (str : Text) : Type 0 where
  y : Text
  m : Text
  d : Text
  groups : cs ≡ y ∷ m ∷ d ∷ []
  splits : str ≡ y ++ (b'/' ∷ (m ++ (b'/' ∷ d)))
  year : IsNumeral 4 4 y (number y 0)
  month : IsSmall 12 m
  day : IsSmall 31 d

Matches→Parts : {cs : List Text} {str : Text} → Matches date_regex cs str → Parts cs str
Matches→Parts
      (Matches.seq {cs = c1} {s = y} a (
        Matches.seq (Matches.range {c = k} p q) (
          Matches.seq {cs = c2} {s = m} b
            (Matches.seq {ds = c3} {t = d} (Matches.range {c = l} p' q') c)))) =
    let (e1, year) = year-IsNumeral a in
    let (e2, month) = month-IsSmall b in
    let (e3, day) = day-IsSmall c in
    let bar : k ≡ b'/' = omega (arith, p, q) in
    let bar' : l ≡ b'/' = omega (arith, p', q') in
    record {
      y = y;
      m = m;
      d = d;
      groups = rw (e1, e2, e3) refl;
      splits = rw (bar, bar') refl;
      year = year;
      month = month;
      day = day;
    }

IsNumeral→IsSmall :
    (limit : ℕ) (s : Text) (n : ℕ) → IsNumeral 1 2 s n → 1 ≤ n → n ≤ limit → IsSmall limit s
IsNumeral→IsSmall limit s n h low high = record {
  numeral = record { digits_only = h.digits_only; long = h.long; short = h.short; value = refl };
  low = rw h.value low;
  high = rw h.value high;
}

IsDate→Matches :
    (str : Text) (year month day : ℕ)
    → IsDate str year month day
    → (cs : List Text) × Matches date_regex cs str
IsDate→Matches str year month day h = rw h.splits (
  _,
  Matches.seq (year-Matches h.y year h.in_year) (
      Matches.seq (Matches.range (omega arith) (omega arith)) (
        Matches.seq
          (month-Matches h.m (IsNumeral→IsSmall 12 h.m month h.in_month h.month_low h.month_high))
          (Matches.seq (Matches.range (omega arith) (omega arith))
            (day-Matches h.d (IsNumeral→IsSmall 31 h.d day h.in_day h.day_low h.day_high))))),
)

-- What the answer says of the line.
abbrev pub Judged : Text → Answer → Type 0
Judged str (Answer.valid year month day) = IsDate str year month day
Judged str Answer.invalid = (year month day : ℕ) → ¬ IsDate str year month day

check_date-Parts :
    (cs : List Text) (str : Text)
    → regex_match date_regex str ≡ some cs
    → Parts cs str
    → (a : Answer) × (check_date str ≡ some a) × Judged str a
unfolding check_date
check_date-Parts cs str e h =
    let y' = stoi-numeral 4 4 h.y _ (omega arith) (omega arith) h.year in
    let m' = stoi-numeral 1 2 h.m _ (omega arith) (omega arith) h.month.numeral in
    let d' = stoi-numeral 1 2 h.d _ (omega arith) (omega arith) h.day.numeral in
    (
      Answer.valid (number h.y 0) (number h.m 0) (number h.d 0),
      rw (e, h.groups, y', m', d') refl,
      record {
        y = h.y;
        m = h.m;
        d = h.d;
        splits = h.splits;
        in_year = h.year;
        in_month = h.month.numeral;
        in_day = h.day.numeral;
        month_low = h.month.low;
        month_high = h.month.high;
        day_low = h.day.low;
        day_high = h.day.high;
      },
    )

check_date-Judged : (str : Text) → (a : Answer) × (check_date str ≡ some a) × Judged str a
unfolding check_date
check_date-Judged str = elim (Option-cases (regex_match date_regex str)) [
  | inl e ↦ (
    Answer.invalid,
    rw e refl,
    λ year month day h.
        let (cs, fits) = IsDate→Matches str year month day h in
        let (ds, found) = regex_match-some date_regex fits in absurd (cc (e, found)),
  )
  | inr (cs, e) ↦
      check_date-Parts cs str e (Matches→Parts (regex_match-Matches date_regex str cs e))
]

-- The lines before the one that ends the loop.
abbrev pub before_quit : List Text → List Text
before_quit [] = []
before_quit (str ∷ lines) = let rest = before_quit lines in if is_quit str then [] else str ∷ rest

abbrev pub AllJudged : List Text → List Answer → Type 0
AllJudged [] [] = Unit
AllJudged (str ∷ lines) (a ∷ answers) = Judged str a × AllJudged lines answers
AllJudged [] (a ∷ answers) = ⊥
AllJudged (str ∷ lines) [] = ⊥

-- The loop never throws and answers the lines before `q` in order: the answer to
-- a line is a year, a month and a day exactly when the line is a date, four
-- digits, a month from 1 to 12 and a day from 1 to 31, each of these two in one
-- or two digits, with / between them; and then they are its numbers.
pub check_dates-Judged :
    (lines : List Text)
    → (answers : List Answer) × (check_dates lines ≡ some answers)
      × AllJudged (before_quit lines) answers
unfolding check_dates
check_dates-Judged [] = ([], refl, tt)
check_dates-Judged (str ∷ lines) =
    let (a, e, h) = check_date-Judged str in
    let (answers, e', all) = check_dates-Judged lines in
    elim (Bool-cases (is_quit str)) [
      | inl q ↦ rw q ([], refl, tt)
      | inr q ↦ rw (q, e, e') (a ∷ answers, refl, (h, all))
    ]
