-- ===== src/FaceFile/Reading.antt =====
-- misce_tests/test_fscanf/main.cpp: the line of a face is read as it stands.
use miscellaneous.Base.{
  ℕ, ◌+◌, ◌^◌, ◌<◌, ◌≡◌, refl, ap, ◌∙◌, arith, Bool, true, false, not, lt→ltb, ◌==◌, Text, All,
  List, [], ◌∷◌, ◌++◌, length, some,
}
use miscellaneous.Base.Digits.{in_range, digits, number, IsDigit, digit-in_range}
use miscellaneous.Base.Array.{write}
use miscellaneous.Base.Run.{ok, ◌>>=◌, bind_congr}
use miscellaneous.FaceFile.{
  is_space, skip_space, after_digits, scanned, converted, signed_number, scan_number, Directive, to,
  literal, white, store, scan, corner, face_format, read_from_file, main, same_values,
}

-- One digit or more, of a value.
pub record Numeral (s : Text) (n : ℕ) : Type 0 where
  pub digits_only : All IsDigit s
  pub some_digit : 0 < length s
  pub value : number s 0 ≡ n

-- No digit comes next.
abbrev pub Ends : Text → Type 0
Ends [] = Unit
Ends (c ∷ s) = in_range b'0' b'9' c ≡ false

digits-append : (s t : Text) → All IsDigit s → Ends t → digits (s ++ t) ≡ s
digits-append [] [] h e = refl
digits-append [] (c ∷ t) h e = rw e refl
digits-append (c ∷ s) t h e = rw (digit-in_range c h.0) (ap (λ r. c ∷ r) (digits-append s t h.1 e))

after_digits-append : (s t : Text) → All IsDigit s → Ends t → after_digits (s ++ t) ≡ t
after_digits-append [] [] h e = refl
after_digits-append [] (c ∷ t) h e = rw e refl
after_digits-append (c ∷ s) t h e = rw (digit-in_range c h.0) (after_digits-append s t h.1 e)

digit_no_space : (c : ℕ) → IsDigit c → is_space c ≡ false
digit_no_space c h = ground (arith, h)

digit_no_minus : (c : ℕ) → IsDigit c → (c == b'-') ≡ false
digit_no_minus c h = ground (arith, h)

digit_no_plus : (c : ℕ) → IsDigit c → (c == b'+') ≡ false
digit_no_plus c h = ground (arith, h)

skip_space-Numeral : (s t : Text) (n : ℕ) → Numeral s n → skip_space (s ++ t) ≡ s ++ t
skip_space-Numeral [] t n h = absurd (omega (arith, h.some_digit))
skip_space-Numeral (c ∷ s) t n h = rw (digit_no_space c h.digits_only.0) refl

converted-small :
    (signed : Bool) (c : ℕ) (s rest : Text) (n : ℕ)
    → number (c ∷ s) 0 ≡ n
    → n < 2 ^ 15
    → converted signed false (c ∷ s) rest ≡ scanned n rest
converted-small true c s rest n e h = rw (e, lt→ltb n (2 ^ 15) h) refl
converted-small false c s rest n e h = rw (e, lt→ltb n (2 ^ 16) (omega (arith, h))) refl

scan_number-Numeral :
    (signed : Bool) (s t : Text) (n : ℕ)
    → Numeral s n
    → n < 2 ^ 15
    → Ends t
    → scan_number signed (s ++ t) ≡ scanned n t
unfolding scan_number
scan_number-Numeral signed [] t n h g e = absurd (omega (arith, h.some_digit))
scan_number-Numeral signed (c ∷ s) t n h g e =
    ap (signed_number signed) (skip_space-Numeral (c ∷ s) t n h)
    ∙ rw
        (
          digit_no_minus c h.digits_only.0,
          digit_no_plus c h.digits_only.0,
          digits-append (c ∷ s) t h.digits_only e,
          after_digits-append (c ∷ s) t h.digits_only e,
        )
        (converted-small signed c s t n h.value g)

-- A corner of a face: three numbers, as texts and as numbers.
pub record Corner : Type 0 where
  pub vertex : Text
  pub texture : Text
  pub normal : Text

abbrev pub corner_text : Corner → Text → Text
corner_text c rest = c.vertex ++ (b'/' ∷ (c.texture ++ (b'/' ∷ (c.normal ++ rest))))

pub record Small (c : Corner) (x y z : ℕ) : Type 0 where
  pub vertex : Numeral c.vertex x
  pub texture : Numeral c.texture y
  pub normal : Numeral c.normal z
  pub bounds : (x < 2 ^ 15) × (y < 2 ^ 15) × (z < 2 ^ 15)

scan-to :
    (signed : Bool) (k : ℕ) (format : List Directive) (s t : Text) (n : ℕ) (values : List ℕ)
    → Numeral s n
    → n < 2 ^ 15
    → Ends t
    → scan signed (to k ∷ format) (s ++ t) values ≡ (write values k n >>= scan signed format t)
unfolding scan
scan-to signed k format s t n values h g e =
    ap (store k values (λ rest values'. scan signed format rest values'))
      (scan_number-Numeral signed s t n h g e)

scan-corner :
    (signed : Bool) (k : ℕ) (format : List Directive) (c : Corner) (rest : Text) (x y z : ℕ)
    (values : List ℕ)
    → Small c x y z
    → Ends rest
    → scan signed (corner k format) (corner_text c rest) values ≡ (
        write values k x >>= λ v.
        write v (k + 1) y >>= λ w. write w (k + 2) z >>= scan signed format (skip_space rest))
unfolding scan
scan-corner signed k format c rest x y z values h e =
    let (bx, by, bz) = h.bounds in
    scan-to signed k (literal b'/' ∷ to (k + 1) ∷ literal b'/' ∷ to (k + 2) ∷ white ∷ format)
      c.vertex (b'/' ∷ (c.texture ++ (b'/' ∷ (c.normal ++ rest)))) x values h.vertex bx refl
    ∙ bind_congr (write values k x) λ v.
      scan-to signed (k + 1) (literal b'/' ∷ to (k + 2) ∷ white ∷ format) c.texture
        (b'/' ∷ (c.normal ++ rest)) y v h.texture by refl
      ∙ bind_congr (write v (k + 1) y)
          λ w. scan-to signed (k + 2) (white ∷ format) c.normal rest z w h.normal bz e

-- The line of a face, with one space before each corner, and any text that does not begin with a digit after it.
abbrev pub face_line : Corner → Corner → Corner → Text → Text
face_line a b c rest =
    b'f' ∷ b' ' ∷ corner_text a (b' ' ∷ corner_text b (b' ' ∷ corner_text c rest))

after_space :
    (c : Corner) (rest : Text) (x y z : ℕ)
    → Small c x y z
    → skip_space (b' ' ∷ corner_text c rest) ≡ corner_text c rest
after_space c rest x y z h = skip_space-Numeral c.vertex _ x h.vertex

module _ (a b c : Corner) (rest : Text) (n0 n1 n2 n3 n4 n5 n6 n7 n8 : ℕ) (ha : Small a n0 n1 n2)
    (hb : Small b n3 n4 n5) (hc : Small c n6 n7 n8) (e : Ends rest) where
  scan-face :
      (signed : Bool) (m0 m1 m2 m3 m4 m5 m6 m7 m8 : ℕ)
      → scan signed face_format
          (b' ' ∷ corner_text a (b' ' ∷ corner_text b (b' ' ∷ corner_text c rest)))
          (m0 ∷ m1 ∷ m2 ∷ m3 ∷ m4 ∷ m5 ∷ m6 ∷ m7 ∷ m8 ∷ [])
        ≡ ok (n0 ∷ n1 ∷ n2 ∷ n3 ∷ n4 ∷ n5 ∷ n6 ∷ n7 ∷ n8 ∷ [])
  unfolding scan scan_number write
  scan-face signed m0 m1 m2 m3 m4 m5 m6 m7 m8 =
      let tail_c = corner_text c rest in
      let tail_b = corner_text b (b' ' ∷ tail_c) in
      scan-corner signed 0 (corner 3 (corner 6 [])) a (b' ' ∷ tail_b) n0 n1 n2 _ ha refl
      ∙ ap
          (λ t.
            scan signed (corner 3 (corner 6 [])) t
              (n0 ∷ n1 ∷ n2 ∷ m3 ∷ m4 ∷ m5 ∷ m6 ∷ m7 ∷ m8 ∷ []))
          (after_space b (b' ' ∷ tail_c) n3 n4 n5 hb)
      ∙ scan-corner signed 3 (corner 6 []) b (b' ' ∷ tail_c) n3 n4 n5 _ hb refl
      ∙ ap (λ t. scan signed (corner 6 []) t (n0 ∷ n1 ∷ n2 ∷ n3 ∷ n4 ∷ n5 ∷ m6 ∷ m7 ∷ m8 ∷ []))
          (after_space c rest n6 n7 n8 hc)
      ∙ scan-corner signed 6 [] c rest n6 n7 n8 _ hc e

  read-face :
      (flag_unsigned : Bool) (m0 m1 m2 m3 m4 m5 m6 m7 m8 : ℕ)
      → read_from_file
          (some (face_line a b c rest))
          (m0 ∷ m1 ∷ m2 ∷ m3 ∷ m4 ∷ m5 ∷ m6 ∷ m7 ∷ m8 ∷ [])
          flag_unsigned
        ≡ ok (true, n0 ∷ n1 ∷ n2 ∷ n3 ∷ n4 ∷ n5 ∷ n6 ∷ n7 ∷ n8 ∷ [])
  unfolding read_from_file
  read-face flag_unsigned m0 m1 m2 m3 m4 m5 m6 m7 m8 =
      ap (λ r. r >>= (λ d. ok (true, d))) (scan-face (not flag_unsigned) m0 m1 m2 m3 m4 m5 m6 m7 m8)

  same_self : (values : List ℕ) → same_values values values ≡ true
  same_self [] = refl
  same_self (n ∷ values) = let rest = same_self values in ground (arith, rest)

  -- For a file that begins with `f` and three corners of three numbers below
  -- 2^15 each, in decimal digits, with / between the numbers and a space before
  -- every corner, and with anything but a digit after them: both ways of reading
  -- give the nine numbers in order, and main finds the arrays the same.
  pub main-face :
      main (some (face_line a b c rest))
      ≡ ok (record {
        data1 = some (n0 ∷ n1 ∷ n2 ∷ n3 ∷ n4 ∷ n5 ∷ n6 ∷ n7 ∷ n8 ∷ []);
        data2 = some (n0 ∷ n1 ∷ n2 ∷ n3 ∷ n4 ∷ n5 ∷ n6 ∷ n7 ∷ n8 ∷ []);
        same = true;
      })
  unfolding main
  main-face =
      rw
        (
          read-face true 0 0 0 0 0 0 0 0 0,
          read-face false 1 0 0 0 0 0 0 0 0,
          same_self (n0 ∷ n1 ∷ n2 ∷ n3 ∷ n4 ∷ n5 ∷ n6 ∷ n7 ∷ n8 ∷ []),
        )
        refl
