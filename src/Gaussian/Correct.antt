-- ===== src/Gaussian/Correct.antt =====
-- `gaussian` of test_opencv.cpp is the blur of the reference, when the size of the kernel is odd.
use miscellaneous.Base.{
  ℕ, ◌+◌, ◌*◌, ◌/◌, ◌<◌, ◌≡◌, refl, ap, ◌∙◌, inl, inr, arith, Bool, true, false, if◌then◌else◌,
  lt→ltb,
}
use miscellaneous.Base.Run.{ok, Yields, Yields-bind, Yields-weaken}
use miscellaneous.Gaussian.{
  Double, Mat, clamp, read_pixel, get_gaussian_array, blur_row, blur_column, gaussian,
}
use miscellaneous.Gaussian.Reference.{IsByteExact, byte, weight, near, blurred_once, blurred}
use miscellaneous.Gaussian.Pass.{Done, row_loop-Done, in_row}
use miscellaneous.Gaussian.Blur.{read-get_gaussian_array, add_taps-near, near_congr}

pub read_pixel-inside :
    (m : Mat) (i j c : ℕ)
    → i < m.rows
    → j < m.cols
    → c < m.channels
    → read_pixel m i (j * m.channels + c) ≡ ok (m.pixel i (j * m.channels + c))
unfolding read_pixel
read_pixel-inside m i j c hi hj hc =
    let inside = in_row j m.cols c m.channels hj hc in
    rw (lt→ltb i m.rows hi, lt→ltb (j * m.channels + c) (m.cols * m.channels) inside) refl

-- The picture `dst` is `src`, blurred.
pub record IsBlurred {D : Type 0} (double : Double D) (w : ℕ → D) (center : ℕ) (src dst : Mat)
    : Type 0 where
  pub same_rows : dst.rows ≡ src.rows
  pub same_cols : dst.cols ≡ src.cols
  pub same_channels : dst.channels ≡ src.channels
  pub at :
      (i j c : ℕ)
      → i < src.rows
      → j < src.cols
      → c < src.channels
      → dst.pixel i (j * dst.channels + c) ≡ blurred double w center src i j c

abbrev from_below : {D : Type 0} (double : Double D) → D → ℕ
from_below double x =
    double.to_uchar (if double.less x (double.of_int 0) then double.of_int 0 else x)

clamp-byte :
    {D : Type 0} (double : Double D) → IsByteExact double → (v : D) → clamp double v ≡ byte double v
unfolding byte
clamp-byte double exact v =
    by_tests (double.less (double.of_int 255) v) (double.less v (double.of_int 0)) refl
  where
    by_tests :
        (b c : Bool)
        → double.less v (double.of_int 0) ≡ c
        → from_below double (if b then double.of_int 255 else v)
          ≡ (if b then 255 else if c then 0 else double.to_uchar v)
    by_tests true c e =
        ap (λ b. double.to_uchar (if b then double.of_int 0 else double.of_int 255)) exact.not_less
        ∙ exact.exact 255 (omega arith)
    by_tests false true e =
        ap (λ b. double.to_uchar (if b then double.of_int 0 else v)) e ∙ exact.exact 0 (omega arith)
    by_tests false false e = ap (λ b. double.to_uchar (if b then double.of_int 0 else v)) e

module _ {D : Type 0} (double : Double D) (sigma : D) (center : ℕ) where
  blur_row-near :
      (src : Mat) (i j c : ℕ)
      → i < src.rows
      → j < src.cols
      → c < src.channels
      → blur_row double (get_gaussian_array double (2 * center + 1) sigma) center src i j c
        ≡ ok (
            near double
              (λ x. src.pixel i (x * src.channels + c))
              (weight double (2 * center + 1) sigma)
              center
              j
              src.cols)
  unfolding blur_row
  blur_row-near src i j c hi hj hc =
      add_taps-near double (get_gaussian_array double (2 * center + 1) sigma) center src.cols j _
        (λ x. src.pixel i (x * src.channels + c)) (λ x hx. read_pixel-inside src i x c hi hx hc)
        (2 * center + 1) _ (λ k hk. read-get_gaussian_array double (2 * center + 1) sigma k hk)
        (omega arith)

  blur_column-near :
      (temp : Mat) (i j c : ℕ)
      → i < temp.rows
      → j < temp.cols
      → c < temp.channels
      → blur_column double (get_gaussian_array double (2 * center + 1) sigma) center temp i j c
        ≡ ok (
            near double
              (λ y. temp.pixel y (j * temp.channels + c))
              (weight double (2 * center + 1) sigma)
              center
              i
              temp.rows)
  unfolding blur_column
  blur_column-near temp i j c hi hj hc =
      add_taps-near double (get_gaussian_array double (2 * center + 1) sigma) center temp.rows i _
        (λ y. temp.pixel y (j * temp.channels + c)) (λ y hy. read_pixel-inside temp y j c hy hj hc)
        (2 * center + 1) _ (λ k hk. read-get_gaussian_array double (2 * center + 1) sigma k hk)
        (omega arith)

  half : (2 * center + 1) / 2 ≡ center
  half = omega arith

-- No pixel is before the first.
start :
    {D : Type 0} (double : Double D) (v : ℕ → ℕ → ℕ → D) (m : Mat)
    → Done double v m.rows m.cols m.channels 0 0 0 m
start double v m = record {
  same_rows = refl;
  same_cols = refl;
  same_channels = refl;
  at = λ i' j' c' p q b. elim b [
    | inl r ↦ absurd (omega (arith, r))
    | inr (r, inl s) ↦ absurd (omega (arith, s))
    | inr (r, inr (s, t)) ↦ absurd (omega (arith, t))
  ];
}

module _ {D : Type 0} (double : Double D) (exact : IsByteExact double) (sigma : D) (center : ℕ)
    (src : Mat) where
  abbrev w : ℕ → D
  w = weight double (2 * center + 1) sigma

  -- The values that the second pass computes from the result of the first.
  second :
      (temp : Mat)
      → Done double
          (λ i j c. near double (λ x. src.pixel i (x * src.channels + c)) w center j src.cols)
          src.rows
          src.cols
          src.channels
          src.rows
          0
          0
          temp
      → (i j c : ℕ) → i < src.rows
      → j < src.cols
      → c < src.channels
      → blur_column double (get_gaussian_array double (2 * center + 1) sigma) center temp i j c
        ≡ ok (near double (λ y. blurred_once double w center src y j c) w center i src.rows)
  unfolding blurred_once
  second temp d i j c hi hj hc =
      blur_column-near double sigma center temp i j c (omega (arith, hi, d.same_rows))
        (omega (arith, hj, d.same_cols)) (omega (arith, hc, d.same_channels))
      ∙ ap (λ l. ok (near double (λ y. temp.pixel y (j * temp.channels + c)) w center i l))
          d.same_rows
      ∙ ap (λ n. ok (near double (λ y. temp.pixel y (j * n + c)) w center i src.rows))
          d.same_channels
      ∙ ap ok (
          near_congr double (λ y. temp.pixel y (j * src.channels + c))
            (λ y. blurred_once double w center src y j c) w center i src.rows
            λ y hy. d.at y j c hj hc (inl hy) ∙ clamp-byte double exact _)

  -- With a kernel of odd size no access is out of bounds, and every byte of the
  -- result is the blur along the column of the blur along the rows: the sums
  -- over the samples at most `center` away, in order, of each sample times its
  -- weight, and of each sum the byte: 255 for a sum above it, 0 for one below
  -- 0, and else the sum's conversion. The weights are the values of the bell
  -- curve over their sum. It is asked that 255 is not less than 0 in `double`,
  -- and that a whole number below 256 is converted to itself.
  pub gaussian-IsBlurred :
      Yields
        (IsBlurred double (weight double (2 * center + 1) sigma) center src)
        (gaussian double (2 * center + 1) sigma src)
  unfolding gaussian blurred
  gaussian-IsBlurred = rw (half double sigma center) (
      Yields-bind
        (row_loop-Done double _ src.rows src.cols src.channels _
          (λ i j c hi hj hc. blur_row-near double sigma center src i j c hi hj hc) src.rows 0 src
          (omega arith) (start double _ src))
        λ temp d.
          Yields-weaken
            (λ dst e. record {
              same_rows = e.same_rows;
              same_cols = e.same_cols;
              same_channels = e.same_channels;
              at = λ i j c hi hj hc.
                  ap (λ n. dst.pixel i (j * n + c)) e.same_channels
                  ∙ e.at i j c hj hc (inl hi)
                  ∙ clamp-byte double exact _;
            })
            (row_loop-Done double _ src.rows src.cols src.channels _ (second temp d) src.rows 0 src
              (omega arith) (start double _ src)))
