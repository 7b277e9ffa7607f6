-- ===== src/Rectangles/Tests.antt =====
-- misce_tests/OpenCV/iou.cpp: rectangles with integers, and one value that is not finite, for vertices.
use miscellaneous.Base.{◌≡◌, refl, ap, arith, Bool, true, false, if◌then◌else◌}
use miscellaneous.Base.Int.{ℤ, pos, negsuc, ◌+ℤ◌, ◌-ℤ◌, ◌*ℤ◌, ◌/ℤ◌, leb_ℤ}
use miscellaneous.Rectangles.{Float, RectVertex, iou, is_overlap}
use miscellaneous.Rectangles.Overlap.{Laws, IsBounded, common, is_proper, share, iou-common}

-- The integers, and one value that stands for a NaN: every comparison with it is false, and every
-- operation on it gives it.
data Value : Type 0 where
  num : ℤ → Value
  nan : Value

abbrev lift : (ℤ → ℤ → ℤ) → Value → Value → Value
lift g (num a) (num b) = num (g a b)
lift g (num a) nan = nan
lift g nan b = nan

abbrev at_most : Value → Value → Bool
at_most (num a) (num b) = leb_ℤ a b
at_most (num a) nan = false
at_most nan b = false

abbrev values : Float Value
values = record {
  zero = num (pos 0);
  plus = lift (λ a b. a +ℤ b);
  minus = lift (λ a b. a -ℤ b);
  times = lift (λ a b. a *ℤ b);
  divide = lift (λ a b. a /ℤ b);
  min = lift (λ a b. if leb_ℤ a b then a else b);
  max = lift (λ a b. if leb_ℤ b a then a else b);
  at_most = at_most;
}

abbrev IsNumber : Value → Type 0
IsNumber v = (z : ℤ) × (v ≡ num z)

if_same : {A : Type 0} (b : Bool) (x : A) → (if b then x else x) ≡ x
if_same true x = refl
if_same false x = refl

minus_at_most : (a b : ℤ) → leb_ℤ (a -ℤ b) (pos 0) ≡ leb_ℤ a b
unfolding ◌-ℤ◌
minus_at_most a b = ground arith

max_first : (a b : ℤ) → leb_ℤ b a ≡ true → num (if leb_ℤ b a then a else b) ≡ num a
max_first a b h = rw h refl

max_twice : (a : ℤ) → (if leb_ℤ a a then a else a) ≡ a
max_twice a = if_same (leb_ℤ a a) a

laws : Laws values IsNumber
laws = record {
  min-IsFinite = λ a b (x, p) (y, q). rw (p, q) (_, refl);
  max-IsFinite = λ a b (x, p) (y, q). rw (p, q) (_, refl);
  minus_lem = λ a b (x, p) (y, q). rw (p, q) (minus_at_most x y);
  max_lem = λ a b (x, p) (y, q) h. rw (p, q) (max_first x y (rw (p, q) at h));
  max_same = λ a (x, p). rw p (ap num (max_twice x));
}

abbrev rect : ℤ → ℤ → ℤ → ℤ → RectVertex Value
rect left top right bottom = record { tl = (num left, num top); br = (num right, num bottom) }

rect-IsBounded : (left top right bottom : ℤ) → IsBounded IsNumber (rect left top right bottom)
rect-IsBounded left top right bottom = record {
  left = (left, refl);
  top = (top, refl);
  right = (right, refl);
  bottom = (bottom, refl);
}

-- (-2, -3) to (8, 9), and (-4, 1) to (4, 5).
abbrev large : RectVertex Value
large = rect (negsuc 1) (negsuc 2) (pos 8) (pos 9)

abbrev small : RectVertex Value
small = rect (negsuc 3) (pos 1) (pos 4) (pos 5)

iou-common_example :
    (is_overlap values large small ≡ is_proper values (common values large small))
    × (iou values large small ≡ (
        if is_proper values (common values large small)
        then share values large small
        else num (pos 0)))
iou-common_example =
    iou-common values IsNumber laws large small
      (rect-IsBounded (negsuc 1) (negsuc 2) (pos 8) (pos 9))
      (rect-IsBounded (negsuc 3) (pos 1) (pos 4) (pos 5)) refl

-- Two rectangles that lie apart, for which the answer depends on their order.
abbrev right_one : RectVertex Value
right_one = rect (pos 6) (pos 1) (pos 8) (pos 9)

apart_asymmetric :
    (is_overlap values small right_one ≡ true) × (is_overlap values right_one small ≡ false)
unfolding is_overlap ◌-ℤ◌
apart_asymmetric = (refl, refl)
