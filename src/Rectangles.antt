-- ===== src/Rectangles.antt =====
-- misce_tests/OpenCV/iou.cpp: how much two rectangles overlap.
-- The arithmetic and the order of `float` are a parameter.
mod Overlap
mod Tests
use miscellaneous.Base.{Bool, not, ◌||◌, if◌then◌else◌}

pub record Float (A : Type 0) : Type 0 where
  pub zero : A
  pub plus : A → A → A
  pub minus : A → A → A
  pub times : A → A → A
  pub divide : A → A → A
  pub min : A → A → A
  pub max : A → A → A
  pub at_most : A → A → Bool

-- The vertices at the top left and at the bottom right.
pub record RectVertex (A : Type 0) : Type 0 where
  pub tl : A × A
  pub br : A × A

module _ {A : Type 0} (f : Float A) where
  unfoldable pub area : RectVertex A → A
  area r = f.times (f.minus (r.br.0) (r.tl.0)) (f.minus (r.br.1) (r.tl.1))

  -- The variables `w` and `h` of `iou` and `isOverlap`.
  abbrev pub overlap_width : RectVertex A → RectVertex A → A
  overlap_width rect1 rect2 =
      f.minus (f.min (rect1.br.0) (rect2.br.0)) (f.max (rect1.tl.0) (rect1.tl.0))

  abbrev pub overlap_height : RectVertex A → RectVertex A → A
  overlap_height rect1 rect2 =
      f.minus (f.min (rect1.br.1) (rect2.br.1)) (f.max (rect1.tl.1) (rect2.tl.1))

  unfoldable pub iou : RectVertex A → RectVertex A → A
  iou rect1 rect2 =
      let w = overlap_width rect1 rect2 in
      let h = overlap_height rect1 rect2 in
      if f.at_most w f.zero || f.at_most h f.zero
      then f.zero
      else f.divide (f.times w h) (f.minus (f.plus (area rect1) (area rect2)) (f.times w h))

  unfoldable pub is_overlap : RectVertex A → RectVertex A → Bool
  is_overlap rect1 rect2 = not (
      f.at_most (overlap_width rect1 rect2) f.zero || f.at_most (overlap_height rect1 rect2) f.zero)
