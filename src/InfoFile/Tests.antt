-- ===== src/InfoFile/Tests.antt =====
-- stringstream.cpp: numbers of one bit, written as digits.
use miscellaneous.Base.{
  ℕ, ◌≡◌, refl, arith, Bool, true, false, ◌==◌, if◌then◌else◌, Option, none, some, [], ◌∷◌, ◌++◌,
  Text,
}
use miscellaneous.Base.Run.{ok}
use miscellaneous.InfoFile.{
  Format, MyInfo, write_to_file, read_from_file, print_to_stringstream, getline, get_all, get_more,
  got, after_count, Files, main,
}
use miscellaneous.InfoFile.Copies.{copied, main-copied}
use miscellaneous.InfoFile.Laws.{IsLine, Laws, SizeLaws}
use miscellaneous.InfoFile.RoundTrip.{IsReadable, reread, read_from_file-write_to_file}

abbrev put_bit : Bool → Text
put_bit true = 49 ∷ []
put_bit false = 48 ∷ []

abbrev get_bit : Text → Option (Bool × Text)
get_bit [] = none
get_bit (c ∷ t) =
    if c == 32
    then get_bit t
    else (if c == 49 then some (true, t) else (if c == 48 then some (false, t) else none))

abbrev bits : Format Bool
bits = record { put = put_bit; get = get_bit; left = λ t. false }

abbrev Any : Bool → Type 0
Any b = Unit {0}

get_put : (b : Bool) (t : Text) → get_bit (put_bit b ++ (32 ∷ t)) ≡ some (b, 32 ∷ t)
get_put true t = refl
get_put false t = refl

get_line : (b : Bool) → get_bit (put_bit b) ≡ some (b, [])
get_line true = refl
get_line false = refl

put_bit-IsLine : (b : Bool) → IsLine (put_bit b)
put_bit-IsLine true = (refl, tt)
put_bit-IsLine false = (refl, tt)

bits-Laws : Laws bits Any (λ b. b)
bits-Laws = record {
  get_lem = λ b t _. get_put b t;
  get_line_lem = λ b _. get_line b;
  skip_lem = λ t. refl;
  nothing_lem = refl;
  line_lem = put_bit-IsLine;
  stable_lem = λ b _. refl;
}

abbrev one : ℕ → Text
one k = 49 ∷ []

sizes : SizeLaws bits one
sizes = record { as_int = λ k. true; size_lem = λ k t h. refl; size_line_lem = λ k. (refl, tt) }

abbrev info : MyInfo Bool Bool
info = record { people = true; score = false; colors = true ∷ []; numbers = false ∷ true ∷ [] }

info-IsReadable : IsReadable bits-Laws bits-Laws sizes info
info-IsReadable = record {
  any_people = tt;
  finite_score = tt;
  finite_colors = (tt, tt);
  any_numbers = (tt, (tt, tt));
  few_colors = omega arith;
  few_numbers = omega arith;
}

read_again :
    read_from_file bits bits one 3 (some (print_to_stringstream bits bits one info))
    ≡ ok (some info)
unfolding read_from_file print_to_stringstream getline get_all get_more got after_count
read_again = refl

read_from_file-write_to_file_example :
    ((write_to_file bits bits one true (some info)).0 ≡ true)
    × (read_from_file bits bits one 3 ((write_to_file bits bits one true (some info)).1)
        ≡ ok (some (reread bits-Laws bits-Laws sizes info)))
    × (write_to_file bits bits one true (some (reread bits-Laws bits-Laws sizes info))
        ≡ write_to_file bits bits one true (some info))
read_from_file-write_to_file_example =
    read_from_file-write_to_file bits-Laws bits-Laws sizes 3 info info-IsReadable (omega arith)
      (omega arith)

abbrev no_files : Files
no_files = record { output = none; output2 = none; shown = none }

main-copied_example :
    main bits bits one 3 true true info no_files
    ≡ ok (copied bits-Laws bits-Laws sizes true true info no_files)
main-copied_example =
    main-copied bits-Laws bits-Laws sizes 3 true true info no_files info-IsReadable (omega arith)
      (omega arith)
