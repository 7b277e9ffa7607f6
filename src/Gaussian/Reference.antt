-- ===== src/Gaussian/Reference.antt =====
-- test_opencv.cpp: the blur, described by the samples near a place instead of by the entries of the kernel.
use miscellaneous.Base.{ℕ, zero, suc, ◌+◌, ◌-◌, ◌*◌, ◌/◌, ◌<◌, ◌≡◌, ltb, if◌then◌else◌, false}
use miscellaneous.Gaussian.{Double, Mat}

abbrev pub away : ℕ → ℕ → ℕ
away i center = if ltb i center then center - i else i - center

abbrev pub least : ℕ → ℕ → ℕ
least a b = if ltb a b then a else b

-- What is asked of `double` and its conversion to a byte: 255 is not less than 0, and a whole number
-- below 256 is converted to itself.
pub record IsByteExact {D : Type 0} (double : Double D) : Type 0 where
  pub not_less : double.less (double.of_int 255) (double.of_int 0) ≡ false
  pub exact : (n : ℕ) → n < 256 → double.to_uchar (double.of_int n) ≡ n

module _ {D : Type 0} (double : Double D) where
  -- The byte for a number: 255 above it, 0 below it, and else the number's conversion.
  unfoldable pub byte : D → ℕ
  byte v =
      if double.less (double.of_int 255) v
      then 255
      else if double.less v (double.of_int 0)
      then 0
      else double.to_uchar v

  -- The value of the bell curve at a distance `x`: s2 / pi times exp (-1 * (x^2 / s2)).
  unfoldable pub bell : D → ℕ → D
  bell s2 x =
      let exponent =
        double.mul (double.neg (double.of_int 1)) (double.div (double.of_int (x * x)) s2) in
      double.mul (double.mul (double.div (double.of_int 1) double.pi) s2) (double.exp exponent)

  -- The sum of `n` values of the curve, from place `i` on.
  unfoldable pub total : D → ℕ → ℕ → ℕ → D → D
  total s2 center zero i sum = sum
  total s2 center (suc n) i sum =
      total s2 center n (suc i) (double.add sum (bell s2 (away i center)))

  -- The weight at `k` of a kernel of a size.
  abbrev pub weight : ℕ → D → ℕ → D
  weight size sigma k =
      let s2 = double.mul (double.mul (double.of_int 2) sigma) sigma in
      double.div (bell s2 (away k (size / 2))) (total s2 (size / 2) size 0 (double.of_int 0))

  -- The sum of `n` samples from `x` on, each with the weight of its distance from `pos`.
  unfoldable pub weighted : (ℕ → ℕ) → (ℕ → D) → ℕ → ℕ → ℕ → ℕ → D → D
  weighted value w center pos zero x sum = sum
  weighted value w center pos (suc n) x sum =
      weighted value w center pos n (suc x)
        (double.add sum (double.mul (double.of_int (value x)) (w (x + center - pos))))

  -- The samples at most `center` from `pos`, of `limit`.
  unfoldable pub near : (ℕ → ℕ) → (ℕ → D) → ℕ → ℕ → ℕ → D
  near value w center pos limit =
      weighted value w center pos (least (pos + center + 1) limit - (pos - center)) (pos - center)
        (double.of_int 0)

  -- The byte of a blurred picture.
  unfoldable pub blurred_once : (ℕ → D) → ℕ → Mat → ℕ → ℕ → ℕ → ℕ
  blurred_once w center src i j c =
      byte (near (λ j'. src.pixel i (j' * src.channels + c)) w center j src.cols)

  unfoldable pub blurred : (ℕ → D) → ℕ → Mat → ℕ → ℕ → ℕ → ℕ
  blurred w center src i j c =
      byte (near (λ i'. blurred_once w center src i' j c) w center i src.rows)
