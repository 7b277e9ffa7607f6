-- ===== src/InfoFile.antt =====
-- misce_tests/stringstream/stringstream.cpp: a `MyInfo` is written to a file and read from one. How
-- numbers are written and read is a parameter.
mod Laws
mod RoundTrip
mod Copies
mod Tests
use miscellaneous.Base.{
  ℕ, zero, suc, Bool, true, false, ◌&&◌, ◌==◌, if◌then◌else◌, Option, none, some, List, [], ◌∷◌,
  ◌++◌, Text, text, length,
}
use miscellaneous.Base.Run.{Run, ok, out_of_fuel, ◌>>=◌}

-- `<<` and `>>` of a type of numbers; `get` has no result when `>>` fails, and `left` is what it leaves
-- in the variable then.
pub record Format (N : Type 0) : Type 0 where
  pub put : N → Text
  pub get : Text → Option (N × Text)
  pub left : Text → N

-- `int` and `float`.
pub record MyInfo (I F : Type 0) : Type 0 where
  pub people : I
  pub score : F
  pub colors : List F
  pub numbers : List I

-- `<< std::endl`, and what follows.
abbrev pub endl : Text → Text → Text
endl line rest = line ++ (10 ∷ rest)

-- The rest after the first line, without its end.
abbrev pub on_rest : ℕ → Bool → Text → Text × Text → Text × Text
on_rest c true t (line, rest) = ([], t)
on_rest c false t (line, rest) = (c ∷ line, rest)

-- `std::getline`
unfoldable pub getline : Text → Text × Text
getline [] = ([], [])
getline (c ∷ t) = on_rest c (c == 10) t (getline t)

-- `line.find(label) == 0`
abbrev pub starts_with : Text → Text → Bool
starts_with [] line = true
starts_with (c ∷ label) [] = false
starts_with (c ∷ label) (d ∷ line) = c == d && starts_with label line

abbrev pub is_space : ℕ → Bool
is_space c = c == 32

-- `ss >> label`, at a word that ends with a space: what is left.
abbrev pub after_word : Text → Text
after_word [] = []
after_word (c ∷ t) = if is_space c then c ∷ t else after_word t

module _ {N : Type 0} (format : Format N) where
  abbrev pub put_all : List N → Text
  put_all [] = []
  put_all (n ∷ ns) = format.put n ++ (32 ∷ put_all ns)

  -- `ss >> x` until it fails.
  pub get_more : (Text → Run (List N)) → Option (N × Text) → Run (List N)
  get_more rest none = ok []
  get_more rest (some (n, t)) = rest t >>= λ ns. ok (n ∷ ns)

  unfoldable pub get_all : ℕ → Text → Run (List N)
  unfolding get_more
  get_all zero t = out_of_fuel
  get_all (suc fuel) t = get_more (get_all fuel) (format.get t)

  -- `ss >> x` on a line of its own.
  pub got : Text → Option (N × Text) → N
  got line none = format.left line
  got line (some (n, t)) = n

-- output.txt and output2.txt, and the data that is shown.
pub record Files : Type 0 where
  pub output : Option Text
  pub output2 : Option Text
  pub shown : Option Text

-- What a file holds after it was written or could not be opened.
abbrev pub replaced : Option Text → Option Text → Option Text
replaced before none = before
replaced before (some t) = some t

module _ {I F : Type 0} (ints : Format I) (floats : Format F) (put_size : ℕ → Text) where
  abbrev pub labelled : Text → ℕ → Text → Text
  labelled label size items = label ++ (put_size size ++ (32 ∷ items))

  -- The sizes are `size_t`.
  unfoldable pub print_to_stringstream : MyInfo I F → Text
  print_to_stringstream info = endl (text "info: ") (
      endl (ints.put info.people) (
        endl (floats.put info.score) (
          endl (labelled (text "colors: ") (length info.colors) (put_all floats info.colors)) (
            endl (labelled (text "numbers: ") (length info.numbers) (put_all ints info.numbers))
              []))))

  -- Whether it succeeds, and the new contents of the file if it could be opened.
  unfoldable pub write_to_file : Bool → Option (MyInfo I F) → Bool × Option Text
  write_to_file false info = (false, none)
  write_to_file true none = (false, some [])
  write_to_file true (some info) = (true, some (print_to_stringstream info))

  -- The count is read as an `int`; when that fails, so does every `>>` after it.
  pub after_count : {A : Type 0} → (Text → Run (List A)) → Option (I × Text) → Run (List A)
  after_count rest none = ok []
  after_count rest (some (n, t)) = rest t

  -- The list of a line with a label.
  abbrev pub read_list :
      {A : Type 0}
      → Text
      → Text
      → (Text → Run (List A))
      → (List A → Run (Option (MyInfo I F)))
      → Run (Option (MyInfo I F))
  read_list label line items rest =
      if starts_with label line
      then (after_count items (ints.get (after_word line)) >>= rest)
      else ok none

  abbrev pub read_lists : ℕ → I → F → Text × Text → Run (Option (MyInfo I F))
  read_lists fuel people score (line, file) =
      read_list (text "colors: ") line (get_all floats fuel) λ colors.
        read_list (text "numbers: ") ((getline file).0) (get_all ints fuel) λ numbers.
          ok (some (record { people = people; score = score; colors = colors; numbers = numbers }))

  abbrev pub read_score : ℕ → I → Text × Text → Run (Option (MyInfo I F))
  read_score fuel people (line, file) =
      read_lists fuel people (got floats line (floats.get line)) (getline file)

  abbrev pub read_people : ℕ → Text × Text → Run (Option (MyInfo I F))
  read_people fuel (line, file) = read_score fuel (got ints line (ints.get line)) (getline file)

  abbrev pub read_info : ℕ → Text × Text → Run (Option (MyInfo I F))
  read_info fuel (line, file) =
      if starts_with (text "info: ") line then read_people fuel (getline file) else ok none

  -- On the contents of the file, if it can be opened.
  unfoldable pub read_from_file : ℕ → Option Text → Run (Option (MyInfo I F))
  read_from_file fuel none = ok none
  read_from_file fuel (some file) = read_info fuel (getline file)

  -- When output.txt was read.
  abbrev pub show_copy : Bool → Files → Option (MyInfo I F) → Files
  show_copy opens2 files none = files
  show_copy opens2 files (some info2) = record files {
    shown = some (print_to_stringstream info2);
    output2 = replaced files.output2 ((write_to_file opens2 (some info2)).1);
  }

  abbrev pub after_write : ℕ → Bool → Files → Bool → Run Files
  after_write fuel opens2 files true =
      read_from_file fuel files.output >>= λ info2. ok (show_copy opens2 files info2)
  after_write fuel opens2 files false = ok files

  -- `opens` and `opens2` are whether the files can be opened to write; a file that there is can be read.
  unfoldable pub main : ℕ → Bool → Bool → MyInfo I F → Files → Run Files
  main fuel opens opens2 info1 files =
      let (success, contents) = write_to_file opens (some info1) in
      after_write fuel opens2 (record files { output = replaced files.output contents }) success
