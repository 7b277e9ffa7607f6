-- ===== src/Dates.antt =====
-- The dates that main.cpp reads and checks with a regular expression. What std::regex_match and
-- std::stoi do is modelled as far as the program uses them: the expression has ranges, alternatives, parts
-- that may be left out, and groups that are captured; the numbers have neither a sign nor spaces.
pub mod Language
mod Calendar
mod Checks
mod Tests
use miscellaneous.Base.{
  ℕ, zero, suc, ◌+◌, ◌-◌, ◌*◌, ◌^◌, Bool, true, false, ◌&&◌, ltb, leb, ◌==◌, if◌then◌else◌, Text,
  text, List, [], ◌∷◌, ◌++◌, map, Option, none, some,
}
use miscellaneous.Base.Digits.{in_range, digits, number}

pub data Regex : Type 0 where
  empty : Regex
  range : ℕ → ℕ → Regex
  seq : Regex → Regex → Regex
  alt : Regex → Regex → Regex
  opt : Regex → Regex
  group : Regex → Regex

-- A way to match the start of a text: the groups, what was used, and what is left.
pub record Hit : Type 0 where
  pub captures : List Text
  pub used : Text
  pub rest : Text

abbrev pub follow : Hit → Hit → Hit
follow h k = record { captures = h.captures ++ k.captures; used = h.used ++ k.used; rest = k.rest }

abbrev pub capture : Hit → Hit
capture h = record h { captures = h.used ∷ h.captures }

abbrev pub nothing : Text → Hit
nothing s = record { captures = []; used = []; rest = s }

abbrev pub each : (Hit → List Hit) → List Hit → List Hit
each f [] = []
each f (h ∷ hs) = f h ++ each f hs

-- The ways to match the start of a text, in the order in which they are tried.
abbrev pub matches : Regex → Text → List Hit
matches Regex.empty s = nothing s ∷ []
matches (Regex.range a b) [] = []
matches (Regex.range a b) (c ∷ s) =
    if in_range a b c then record { captures = []; used = c ∷ []; rest = s } ∷ [] else []
matches (Regex.seq p q) s = each (λ h. map (follow h) (matches q h.rest)) (matches p s)
matches (Regex.alt p q) s = matches p s ++ matches q s
matches (Regex.opt p) s = matches p s ++ (nothing s ∷ [])
matches (Regex.group p) s = map capture (matches p s)

abbrev pub is_empty : Text → Bool
is_empty [] = true
is_empty (c ∷ s) = false

-- The groups of the first way that uses the whole text.
abbrev pub first_whole : List Hit → Option (List Text)
first_whole [] = none
first_whole (h ∷ hs) =
    let later = first_whole hs in if is_empty h.rest then some h.captures else later

unfoldable pub regex_match : Regex → Text → Option (List Text)
regex_match r s = first_whole (matches r s)

abbrev in_int : ℕ → Option ℕ
in_int n = if ltb n (2 ^ 31) then some n else none

abbrev number_of : Text → Option ℕ
number_of [] = none
number_of (c ∷ s) = in_int (number (c ∷ s) 0)

-- The number at the start of a text; `none` where std::stoi throws.
unfoldable pub stoi : Text → Option ℕ
stoi s = number_of (digits s)

-- (\d{4})/(0?[1-9]|1[0-2])/(0?[1-9]|[1-2][0-9]|3[0-1])
abbrev pub char : ℕ → Regex
char c = Regex.range c c

abbrev pub digit : Regex
digit = Regex.range b'0' b'9'

abbrev pub year_regex : Regex
year_regex = Regex.group (Regex.seq digit (Regex.seq digit (Regex.seq digit digit)))

abbrev pub small : Regex
small = Regex.seq (Regex.opt (char b'0')) (Regex.range b'1' b'9')

abbrev pub month_regex : Regex
month_regex = Regex.group (Regex.alt small (Regex.seq (char b'1') (Regex.range b'0' b'2')))

abbrev pub day_regex : Regex
day_regex = Regex.group (
    Regex.alt small (
      Regex.alt (Regex.seq (Regex.range b'1' b'2') digit)
        (Regex.seq (char b'3') (Regex.range b'0' b'1'))))

abbrev pub date_regex : Regex
date_regex =
    Regex.seq year_regex
      (Regex.seq (char b'/') (Regex.seq month_regex (Regex.seq (char b'/') day_regex)))

infixl 5 ◌>>=◌
abbrev ◌>>=◌ : {A B : Type 0} → Option A → (A → Option B) → Option B
none >>= f = none
some a >>= f = f a

-- What is printed for a line.
pub data Answer : Type 0 where
  valid : ℕ → ℕ → ℕ → Answer
  invalid : Answer

-- `m[1]`, `m[2]` and `m[3]`
abbrev converted : List Text → Option Answer
converted (y ∷ m ∷ d ∷ cs) = do
  year ← stoi y
  month ← stoi m
  day ← stoi d
  some (Answer.valid year month day)
converted cs = none

abbrev answer : Option (List Text) → Option Answer
answer (some m) = converted m
answer none = some Answer.invalid

-- The body of the loop; `none` where it throws.
unfoldable pub check_date : Text → Option Answer
check_date str = answer (regex_match date_regex str)

abbrev pub is_quit : Text → Bool
is_quit [] = false
is_quit (c ∷ []) = c == b'q'
is_quit (c ∷ d ∷ s) = false

-- The loop, over the lines that can be read.
unfoldable pub check_dates : List Text → Option (List Answer)
check_dates [] = some []
check_dates (str ∷ lines) =
    let rest = check_dates lines in
    if is_quit str then some [] else (do a ← check_date str; answers ← rest; some (a ∷ answers))
