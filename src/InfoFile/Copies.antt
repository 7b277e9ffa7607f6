-- ===== src/InfoFile/Copies.antt =====
-- stringstream.cpp: what main leaves in its two files.
use miscellaneous.Base.{
  ℕ, ◌<◌, ◌≡◌, refl, ap, ◌∙◌, Bool, true, false, if◌then◌else◌, some, Text, length,
}
use miscellaneous.Base.Run.{ok, ◌>>=◌}
use miscellaneous.InfoFile.{
  Format, MyInfo, print_to_stringstream, write_to_file, Files, show_copy, main,
}
use miscellaneous.InfoFile.Laws.{Laws, SizeLaws}
use miscellaneous.InfoFile.RoundTrip.{IsReadable, reread, read_from_file_lem, print-reread}

module _ {I F : Type 0} {ints : Format I} {floats : Format F} {put_size : ℕ → Text}
    {AnyInt : I → Type 0} {Finite : F → Type 0} {rounded_int : I → I} {rounded : F → F}
    (int_laws : Laws ints AnyInt rounded_int) (float_laws : Laws floats Finite rounded)
    (sizes : SizeLaws ints put_size) where
  -- The files after main.
  abbrev pub copied : Bool → Bool → MyInfo I F → Files → Files
  copied false opens2 info files = files
  copied true opens2 info files =
      let t = print_to_stringstream ints floats put_size info in
      record { output = some t; shown = some t; output2 = if opens2 then some t else files.output2 }

  show_copy-same :
      (opens2 : Bool) (info again : MyInfo I F) (t : Text) (files : Files)
      → print_to_stringstream ints floats put_size again ≡ t
      → show_copy ints floats put_size opens2 (record files { output = some t }) (some again)
        ≡ record {
          output = some t;
          shown = some t;
          output2 = if opens2 then some t else files.output2;
        }
  unfolding write_to_file
  show_copy-same true info again t files e = rw e refl
  show_copy-same false info again t files e = rw e refl

  -- For finite numbers, no more of them than an `int` counts, with fuel above
  -- their number, and laws for the writing and reading of numbers: main ends.
  -- When output.txt cannot be opened it leaves the files as they are; else
  -- output.txt holds the written data, the data read back is shown in the same
  -- text, and output2.txt, when it can be opened, is a copy of output.txt.
  pub main-copied :
      (fuel : ℕ) (opens opens2 : Bool) (info : MyInfo I F) (files : Files)
      → IsReadable int_laws float_laws sizes info
      → length info.colors < fuel
      → length info.numbers < fuel
      → main ints floats put_size fuel opens opens2 info files ≡ ok (copied opens opens2 info files)
  unfolding main write_to_file
  main-copied fuel false opens2 info files r enough enough' = refl
  main-copied fuel true opens2 info files r enough enough' =
      let t = print_to_stringstream ints floats put_size info in
      ap
        (λ m. m >>= λ info2.
          ok (show_copy ints floats put_size opens2 (record files { output = some t }) info2))
        (read_from_file_lem int_laws float_laws sizes fuel info r enough enough')
      ∙ ap ok (
          show_copy-same opens2 info (reread int_laws float_laws sizes info) t files
            (print-reread int_laws float_laws sizes fuel info r enough enough'))
