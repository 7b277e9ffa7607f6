-- ===== src/InfoFile/RoundTrip.antt =====
-- stringstream.cpp: what is written is read again.
use miscellaneous.Base.{
  ℕ, ◌<◌, ◌^◌, ◌≡◌, refl, ap, ◌∙◌, true, some, List, [], ◌∷◌, ◌++◌, map, Text, text, length, All,
  All-append,
}
use miscellaneous.Base.Run.{Run, ok, ◌>>=◌}
use miscellaneous.InfoFile.{
  Format, MyInfo, endl, getline, put_all, get_all, got, labelled, print_to_stringstream,
  write_to_file, after_count, read_list, read_lists, read_score, read_people, read_info,
  read_from_file,
}
use miscellaneous.InfoFile.Laws.{
  NoLineEnd, IsLine, Laws, SizeLaws, getline-endl, put_all-IsLine, get_all-put_all, put_all-map,
  length-map,
}

module _ {I F : Type 0} {ints : Format I} {floats : Format F} {put_size : ℕ → Text}
    {AnyInt : I → Type 0} {Finite : F → Type 0} {rounded_int : I → I} {rounded : F → F}
    (int_laws : Laws ints AnyInt rounded_int) (float_laws : Laws floats Finite rounded)
    (sizes : SizeLaws ints put_size) where
  labelled-IsLine :
      (label : Text) (k : ℕ) (items : Text)
      → IsLine label
      → IsLine items
      → IsLine (labelled ints floats put_size label k items)
  labelled-IsLine label k items h g =
      All-append NoLineEnd label (put_size k ++ (32 ∷ items)) h
        (All-append NoLineEnd (put_size k) (32 ∷ items) (sizes.size_line_lem k) (refl, g))

  after_count_lem :
      {A : Type 0} (k : ℕ) (items : Text) (read : Text → Run (List A)) (xs : List A)
      → k < 2 ^ 31
      → read (32 ∷ items) ≡ ok xs
      → after_count ints floats put_size read (ints.get (32 ∷ (put_size k ++ (32 ∷ items)))) ≡ ok xs
  unfolding after_count
  after_count_lem k items read xs h eq =
      ap (after_count ints floats put_size read) (int_laws.skip_lem _ ∙ sizes.size_lem k items h)
      ∙ eq

  -- Finite numbers, and no more of them than an `int` counts.
  pub record IsReadable (info : MyInfo I F) : Type 0 where
    pub any_people : AnyInt info.people
    pub finite_score : Finite info.score
    pub finite_colors : All Finite info.colors
    pub any_numbers : All AnyInt info.numbers
    pub few_colors : length info.colors < 2 ^ 31
    pub few_numbers : length info.numbers < 2 ^ 31

  abbrev pub reread : MyInfo I F → MyInfo I F
  reread info = record {
    people = rounded_int info.people;
    score = rounded info.score;
    colors = map rounded info.colors;
    numbers = map rounded_int info.numbers;
  }

  info_label : IsLine (text "info: ")
  info_label = (refl, (refl, (refl, (refl, (refl, (refl, tt))))))

  colors_label : IsLine (text "colors: ")
  colors_label = (refl, (refl, (refl, (refl, (refl, (refl, (refl, (refl, tt))))))))

  numbers_label : IsLine (text "numbers: ")
  numbers_label = (refl, (refl, (refl, (refl, (refl, (refl, (refl, (refl, (refl, tt)))))))))

  module _ (fuel : ℕ) (info : MyInfo I F) (r : IsReadable info) (enough : length info.colors < fuel)
      (enough' : length info.numbers < fuel) where
    abbrev numbers_line : Text
    numbers_line =
        labelled ints floats put_size (text "numbers: ") (length info.numbers)
          (put_all ints info.numbers)

    abbrev colors_line : Text
    colors_line =
        labelled ints floats put_size (text "colors: ") (length info.colors)
          (put_all floats info.colors)

    read_numbers :
        (people : I) (score : F) (colors : List F)
        → read_list ints floats put_size
            (text "numbers: ")
            ((getline (endl numbers_line [])).0)
            (get_all ints fuel)
            (λ numbers. ok (
              some (record { people = people; score = score; colors = colors; numbers = numbers })))
          ≡ ok (
              some (record {
                people = people;
                score = score;
                colors = colors;
                numbers = map rounded_int info.numbers;
              }))
    read_numbers people score colors =
        ap
          (λ x.
            read_list ints floats put_size (text "numbers: ") (x.0) (get_all ints fuel) λ numbers.
              ok (
                some
                  (record { people = people; score = score; colors = colors; numbers = numbers })))
          (getline-endl numbers_line [] (
            labelled-IsLine (text "numbers: ") _ _ numbers_label
              (put_all-IsLine int_laws info.numbers)))
        ∙ ap
            (λ m. m >>= λ numbers. ok (
              some (record { people = people; score = score; colors = colors; numbers = numbers })))
            (after_count_lem (length info.numbers) (put_all ints info.numbers) (get_all ints fuel) _
              r.few_numbers (get_all-put_all int_laws fuel info.numbers enough' r.any_numbers))

    abbrev after_score : Text
    after_score = endl colors_line (endl numbers_line [])

    read_colors :
        (people : I) (score : F)
        → read_lists ints floats put_size fuel people score (getline after_score)
          ≡ ok (
              some (record {
                people = people;
                score = score;
                colors = map rounded info.colors;
                numbers = map rounded_int info.numbers;
              }))
    read_colors people score =
        ap (read_lists ints floats put_size fuel people score) (
          getline-endl colors_line (endl numbers_line []) (
            labelled-IsLine (text "colors: ") _ _ colors_label
              (put_all-IsLine float_laws info.colors)))
        ∙ ap
            (λ m. m >>= λ colors.
              read_list ints floats put_size (text "numbers: ") ((getline (endl numbers_line [])).0)
                (get_all ints fuel)
                λ numbers. ok (
                  some (record {
                    people = people;
                    score = score;
                    colors = colors;
                    numbers = numbers;
                  })))
            (after_count_lem (length info.colors) (put_all floats info.colors) (get_all floats fuel)
              _ r.few_colors (get_all-put_all float_laws fuel info.colors enough r.finite_colors))
        ∙ read_numbers people score (map rounded info.colors)

    abbrev after_people : Text
    after_people = endl (floats.put info.score) after_score

    pub read_from_file_lem :
        read_from_file ints floats put_size fuel
          (some (print_to_stringstream ints floats put_size info))
        ≡ ok (some (reread info))
    unfolding read_from_file print_to_stringstream got
    read_from_file_lem =
        ap (read_info ints floats put_size fuel)
          (getline-endl (text "info: ") (endl (ints.put info.people) after_people) info_label)
        ∙ ap (read_people ints floats put_size fuel)
            (getline-endl (ints.put info.people) after_people (int_laws.line_lem info.people))
        ∙ ap
            (λ o.
              read_score ints floats put_size fuel (got ints (ints.put info.people) o)
                (getline after_people))
            (int_laws.get_line_lem info.people r.any_people)
        ∙ ap (read_score ints floats put_size fuel (rounded_int info.people))
            (getline-endl (floats.put info.score) after_score (float_laws.line_lem info.score))
        ∙ ap
            (λ o.
              read_lists ints floats put_size fuel (rounded_int info.people)
                (got floats (floats.put info.score) o) (getline after_score))
            (float_laws.get_line_lem info.score r.finite_score)
        ∙ read_colors (rounded_int info.people) (rounded info.score)

    pub print-reread :
        print_to_stringstream ints floats put_size (reread info)
        ≡ print_to_stringstream ints floats put_size info
    unfolding print_to_stringstream
    print-reread =
        rw
          (
            int_laws.stable_lem info.people r.any_people,
            float_laws.stable_lem info.score r.finite_score,
            put_all-map float_laws info.colors r.finite_colors,
            put_all-map int_laws info.numbers r.any_numbers,
            length-map rounded info.colors,
            length-map rounded_int info.numbers,
          )
          refl

    -- What is written to a file is read from it again, when the numbers are finite, there are no more of
    -- them than an `int` counts, the fuel is more than their number, and writing and reading numbers
    -- obeys the laws: writing succeeds, and reading ends with the same people, score, colors and numbers,
    -- each rounded as it was written. To write what was read gives the same file again.
    pub read_from_file-write_to_file :
        ((write_to_file ints floats put_size true (some info)).0 ≡ true)
        × (read_from_file ints floats put_size fuel
              ((write_to_file ints floats put_size true (some info)).1)
            ≡ ok (some (reread info)))
        × (write_to_file ints floats put_size true (some (reread info))
            ≡ write_to_file ints floats put_size true (some info))
    unfolding write_to_file
    read_from_file-write_to_file = (refl, read_from_file_lem, ap (λ t. (true, some t)) print-reread)
