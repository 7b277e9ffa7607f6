-- ===== src/FaceFile/Tests.antt =====
-- misce_tests/test_fscanf/main.cpp on a line of a face.
use miscellaneous.Base.{◌≡◌, refl, arith, true, some, text, [], ◌∷◌}
use miscellaneous.Base.Run.{ok}
use miscellaneous.Base.Array.{write}
use miscellaneous.FaceFile.{scan, scan_number, read_from_file, main}
use miscellaneous.FaceFile.Reading.{Corner, Small, face_line, main-face}

abbrev first_corner : Corner
first_corner = record { vertex = text "1"; texture = text "20"; normal = text "300" }

abbrev last_corner : Corner
last_corner = record { vertex = text "07"; texture = text "8"; normal = text "32767" }

first-Small : Small first_corner 1 20 300
first-Small = record {
  vertex = record {
    digits_only = ((omega arith, omega arith), tt);
    some_digit = omega arith;
    value = refl;
  };
  texture = record {
    digits_only = ((omega arith, omega arith), ((omega arith, omega arith), tt));
    some_digit = omega arith;
    value = refl;
  };
  normal = record {
    digits_only = (
      (omega arith, omega arith),
      ((omega arith, omega arith), ((omega arith, omega arith), tt)),
    );
    some_digit = omega arith;
    value = refl;
  };
  bounds = (omega arith, omega arith, omega arith);
}

last-Small : Small last_corner 7 8 32767
last-Small = record {
  vertex = record {
    digits_only = ((omega arith, omega arith), ((omega arith, omega arith), tt));
    some_digit = omega arith;
    value = refl;
  };
  texture = record {
    digits_only = ((omega arith, omega arith), tt);
    some_digit = omega arith;
    value = refl;
  };
  normal = record {
    digits_only = (
      (omega arith, omega arith),
      (
        (omega arith, omega arith),
        (
          (omega arith, omega arith),
          ((omega arith, omega arith), ((omega arith, omega arith), tt)),
        ),
      ),
    );
    some_digit = omega arith;
    value = refl;
  };
  bounds = (omega arith, omega arith, omega arith);
}

main-face_example :
    main (some (face_line first_corner first_corner last_corner (text "\n")))
    ≡ ok (record {
      data1 = some (1 ∷ 20 ∷ 300 ∷ 1 ∷ 20 ∷ 300 ∷ 7 ∷ 8 ∷ 32767 ∷ []);
      data2 = some (1 ∷ 20 ∷ 300 ∷ 1 ∷ 20 ∷ 300 ∷ 7 ∷ 8 ∷ 32767 ∷ []);
      same = true;
    })
main-face_example =
    main-face first_corner first_corner last_corner (text "\n") 1 20 300 1 20 300 7 8 32767
      first-Small first-Small last-Small refl

-- A number from 2^15 on is one that `%hu` reads.
unsigned_read :
    read_from_file
      (some (text "f 65535/1/2 3/4/5 6/7"))
      (0 ∷ 0 ∷ 0 ∷ 0 ∷ 0 ∷ 0 ∷ 0 ∷ 0 ∷ 9 ∷ [])
      true
    ≡ ok (true, 65535 ∷ 1 ∷ 2 ∷ 3 ∷ 4 ∷ 5 ∷ 6 ∷ 7 ∷ 9 ∷ [])
unfolding read_from_file scan scan_number write
unsigned_read = refl
