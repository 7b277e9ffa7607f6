-- ===== src/Gaussian.antt =====
-- `getGaussianArray` and `gaussian` of misce_tests/OpenCV/test_opencv.cpp: a blur along the rows and then
-- along the columns. The arithmetic of `double` is a parameter. Sizes and indices are taken to be in the
-- range of `int`.
mod Pass
mod Reference
mod Blur
mod Correct
mod Even
mod Tests
use miscellaneous.Base.{
  ℕ, zero, suc, ◌+◌, ◌-◌, ◌*◌, ◌/◌, Bool, true, false, ◌&&◌, ◌||◌, ltb, leb, ◌==◌, if◌then◌else◌,
  List, [], ◌∷◌, map,
}
use miscellaneous.Base.Array.{read}
use miscellaneous.Base.Run.{Run, ok, fault, ◌>>=◌}

pub record Double (D : Type 0) : Type 0 where
  pub add : D → D → D
  pub mul : D → D → D
  pub div : D → D → D
  pub neg : D → D
  pub exp : D → D
  pub less : D → D → Bool
  pub of_int : ℕ → D
  pub pi : D
  pub to_uchar : D → ℕ

-- `cv::Mat` of bytes: the row, and the place in it.
pub record Mat : Type 0 where
  pub rows : ℕ
  pub cols : ℕ
  pub channels : ℕ
  pub pixel : ℕ → ℕ → ℕ

-- `m.ptr<uchar>(i)[x]`
unfoldable pub read_pixel : Mat → ℕ → ℕ → Run ℕ
read_pixel m i x = if ltb i m.rows && ltb x (m.cols * m.channels) then ok (m.pixel i x) else fault

unfoldable pub write_pixel : Mat → ℕ → ℕ → ℕ → Run Mat
write_pixel m i x v =
    if ltb i m.rows && ltb x (m.cols * m.channels)
    then ok (record m { pixel = λ i' x'. if i' == i && x' == x then v else m.pixel i' x' })
    else fault

-- |i - center|
abbrev pub distance : ℕ → ℕ → ℕ
distance i center = i - center + (center - i)

module _ {D : Type 0} (double : Double D) where
  -- The entry at `i`, before it is divided by the sum.
  abbrev pub entry : D → ℕ → ℕ → D
  entry sigma_square_2 center i =
      double.mul (double.mul (double.div (double.of_int 1) double.pi) sigma_square_2) (
        double.exp (
          double.mul (double.neg (double.of_int 1))
            (double.div (double.of_int (distance i center * distance i center)) sigma_square_2)))

  -- The entries from `i` on, and the sum.
  abbrev pub fill : D → ℕ → ℕ → ℕ → D → List D × D
  fill s2 center zero i sum = ([], sum)
  fill s2 center (suc n) i sum =
      let a = entry s2 center i in
      let (rest, total) = fill s2 center n (suc i) (double.add sum a) in (a ∷ rest, total)

  unfoldable pub get_gaussian_array : ℕ → D → List D
  get_gaussian_array arr_size sigma =
      let s2 = double.mul (double.mul (double.of_int 2) sigma) sigma in
      let (array, sum) = fill s2 (arr_size / 2) arr_size 0 (double.of_int 0) in
      map (λ a. double.div a sum) array

  -- `MAX(MIN(sum, 255), 0)`, stored as a byte.
  abbrev pub clamp : D → ℕ
  clamp sum =
      let low = if double.less (double.of_int 255) sum then double.of_int 255 else sum in
      double.to_uchar (if double.less low (double.of_int 0) then double.of_int 0 else low)

  module _ (array : List D) (center limit pos : ℕ) (sample : ℕ → Run ℕ) where
    -- One round of the loop over `k`, which stands for `k + center` here.
    unfoldable pub add_tap : ℕ → D → Run D
    add_tap k sum = if ltb (pos + k) center || leb (limit + center) (pos + k) then ok sum else (do
      x ← sample (pos + k - center)
      a ← read array k
      ok (double.add sum (double.mul (double.of_int x) a)))

    unfoldable pub add_taps : ℕ → ℕ → D → Run D
    add_taps zero k sum = ok sum
    add_taps (suc n) k sum = add_tap k sum >>= add_taps n (suc k)

  -- The loops over the pixels, with what is computed for each of them.
  module _ (compute : ℕ → ℕ → ℕ → Run D) where
    unfoldable pub channel_loop : ℕ → ℕ → ℕ → ℕ → Mat → Run Mat
    channel_loop zero i j c dst = ok dst
    channel_loop (suc n) i j c dst = do
      sum ← compute i j c
      dst' ← write_pixel dst i (j * dst.channels + c) (clamp sum)
      channel_loop n i j (suc c) dst'

    unfoldable pub column_loop : ℕ → ℕ → ℕ → Mat → Run Mat
    column_loop zero i j dst = ok dst
    column_loop (suc n) i j dst = channel_loop dst.channels i j 0 dst >>= column_loop n i (suc j)

    unfoldable pub row_loop : ℕ → ℕ → Mat → Run Mat
    row_loop zero i dst = ok dst
    row_loop (suc n) i dst = column_loop dst.cols i 0 dst >>= row_loop n (suc i)

  unfoldable pub blur_row : List D → ℕ → Mat → ℕ → ℕ → ℕ → Run D
  blur_row array center src i j c =
      add_taps array center src.cols j (λ j'. read_pixel src i (j' * src.channels + c))
        (2 * center + 1) 0 (double.of_int 0)

  unfoldable pub blur_column : List D → ℕ → Mat → ℕ → ℕ → ℕ → Run D
  blur_column array center temp i j c =
      add_taps array center temp.rows i (λ i'. read_pixel temp i' (j * temp.channels + c))
        (2 * center + 1) 0 (double.of_int 0)

  unfoldable pub gaussian : ℕ → D → Mat → Run Mat
  gaussian kernel_size sigma src = do
    let array = get_gaussian_array kernel_size sigma
    let center = kernel_size / 2
    temp ← row_loop (blur_row array center src) src.rows 0 src
    row_loop (blur_column array center temp) src.rows 0 src
