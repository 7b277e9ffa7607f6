-- ===== src/FaceFile.antt =====
-- misce_tests/test_fscanf/main.cpp: a line of a model's faces, read with fscanf. What fscanf does is modelled
-- as far as the program uses it: `%s`, `%hu` and `%hd`, a `/`, and white space. A file is its text, or is missing.
mod Reading
mod Tests
use miscellaneous.Base.{
  ℕ, ◌+◌, ◌-◌, ◌^◌, Bool, true, false, not, ◌&&◌, ◌||◌, ltb, leb, ◌==◌, if◌then◌else◌, Text, List,
  [], ◌∷◌, length, Option, none, some,
}
use miscellaneous.Base.Digits.{in_range, digits, number}
use miscellaneous.Base.Array.{write}
use miscellaneous.Base.Run.{Run, ok, fault, ◌>>=◌}

abbrev pub is_space : ℕ → Bool
is_space c = c == b' ' || in_range 9 13 c

abbrev pub skip_space : Text → Text
skip_space [] = []
skip_space (c ∷ s) = let rest = skip_space s in if is_space c then rest else c ∷ s

-- The word at the start of a text, and what comes after it.
abbrev pub word : Text → Text
word [] = []
word (c ∷ s) = let rest = word s in if is_space c then [] else c ∷ rest

abbrev pub after_word : Text → Text
after_word [] = []
after_word (c ∷ s) = let rest = after_word s in if is_space c then c ∷ s else rest

abbrev pub after_digits : Text → Text
after_digits [] = []
after_digits (c ∷ s) = let rest = after_digits s in if in_range b'0' b'9' c then rest else c ∷ s

-- A number that is read: there is none, it is not one of the type's, or its bits and the text after it.
pub data Scanned : Type 0 where
  no_number : Scanned
  not_representable : Scanned
  scanned : ℕ → Text → Scanned

-- The bits of a number of the type, given its sign and its digits.
abbrev pub converted : Bool → Bool → Text → Text → Scanned
converted signed negative [] rest = no_number
converted signed negative (c ∷ s) rest =
    let n = number (c ∷ s) 0 in
    let limit =
      if signed
      then (if negative then 2 ^ 15 + 1 else 2 ^ 15)
      else (if negative then 1 else 2 ^ 16) in
    if ltb n limit
    then scanned (if negative && ltb 0 n then 2 ^ 16 - n else n) rest
    else not_representable

abbrev pub signed_number : Bool → Text → Scanned
signed_number signed [] = no_number
signed_number signed (c ∷ s) =
    if c == b'-'
    then converted signed true (digits s) (after_digits s)
    else if c == b'+'
    then converted signed false (digits s) (after_digits s)
    else converted signed false (digits (c ∷ s)) (after_digits (c ∷ s))

unfoldable pub scan_number : Bool → Text → Scanned
scan_number signed s = signed_number signed (skip_space s)

-- The parts of a format; a number goes to a place of the array.
pub data Directive : Type 0 where
  to : ℕ → Directive
  literal : ℕ → Directive
  white : Directive

-- The text after a character that is expected.
abbrev pub without : ℕ → Text → Option Text
without c [] = none
without c (x ∷ s) = if x == c then some s else none

-- A number that was read is stored, and the rest of the format comes next.
abbrev pub store : ℕ → List ℕ → (Text → List ℕ → Run (List ℕ)) → Scanned → Run (List ℕ)
store k values next no_number = ok values
store k values next not_representable = fault
store k values next (scanned n rest) = write values k n >>= next rest

-- The array after fscanf, which stops where the text does not fit.
unfoldable pub scan : Bool → List Directive → Text → List ℕ → Run (List ℕ)
scan signed [] s values = ok values
scan signed (literal c ∷ format) s values = elim (without c s) [
  | none ↦ ok values
  | some rest ↦ scan signed format rest values
]
scan signed (white ∷ format) s values = scan signed format (skip_space s) values
scan signed (to k ∷ format) s values =
    store k values (λ rest values'. scan signed format rest values') (scan_number signed s)

-- "%hu/%hu/%hu %hu/%hu/%hu %hu/%hu/%hu\\n", and with %hd.
abbrev pub corner : ℕ → List Directive → List Directive
corner k format = to k ∷ literal b'/' ∷ to (k + 1) ∷ literal b'/' ∷ to (k + 2) ∷ white ∷ format

abbrev pub face_format : List Directive
face_format = corner 0 (corner 3 (corner 6 []))

-- strcmp(line_header, "f") == 0
abbrev pub is_f : Text → Bool
is_f [] = false
is_f (c ∷ []) = c == b'f'
is_f (c ∷ d ∷ s) = c == b'f' && d == 0

-- The word, the text after it, and an array of 128 bytes for the word.
abbrev pub after_header : Bool → Text → Text → List ℕ → Run (Bool × List ℕ)
after_header flag_unsigned line_header rest values =
    let face = scan (not flag_unsigned) face_format rest values in
    if ltb (length line_header) 128
    then (if is_f line_header then face >>= (λ d. ok (true, d)) else ok (true, values))
    else fault

abbrev pub read_text : Bool → Text → List ℕ → Run (Bool × List ℕ)
read_text flag_unsigned [] values = ok (false, values)
read_text flag_unsigned (c ∷ s) values =
    after_header flag_unsigned (word (c ∷ s)) (after_word (c ∷ s)) values

unfoldable pub read_from_file : Option Text → List ℕ → Bool → Run (Bool × List ℕ)
read_from_file none values flag_unsigned = ok (false, values)
read_from_file (some s) values flag_unsigned = read_text flag_unsigned (skip_space s) values

-- memcmp of the arrays.
abbrev pub same_values : List ℕ → List ℕ → Bool
same_values [] [] = true
same_values (a ∷ xs) (b ∷ ys) = a == b && same_values xs ys
same_values [] (b ∷ ys) = false
same_values (a ∷ xs) [] = false

-- What is printed: the arrays that were read, and whether they are the same.
pub record Printed : Type 0 where
  pub data1 : Option (List ℕ)
  pub data2 : Option (List ℕ)
  pub same : Bool

abbrev when : Bool → List ℕ → Option (List ℕ)
when true d = some d
when false d = none

-- `file` is what obj.txt holds.
unfoldable pub main : Option Text → Run Printed
main file = do
  (read1, data1) ← read_from_file file (0 ∷ 0 ∷ 0 ∷ 0 ∷ 0 ∷ 0 ∷ 0 ∷ 0 ∷ 0 ∷ []) true
  (read2, data2) ← read_from_file file (1 ∷ 0 ∷ 0 ∷ 0 ∷ 0 ∷ 0 ∷ 0 ∷ 0 ∷ 0 ∷ []) false
  ok (record { data1 = when read1 data1; data2 = when read2 data2; same = same_values data1 data2 })
