-- ===== src/Rectangles/Overlap.antt =====
-- misce_tests/OpenCV/iou.cpp: `iou` and `isOverlap` against the rectangle that both have in common.
use miscellaneous.Base.{◌≡◌, refl, sym, ap, ◌∙◌, Bool, true, false, not, ◌||◌, if◌then◌else◌}
use miscellaneous.Rectangles.{Float, RectVertex, area, iou, is_overlap}

-- What is asked of the arithmetic, of the numbers that `IsFinite` holds of and of no other (for
-- `float`: neither an infinity nor a NaN): the lesser and the greater of two of them is one of them, a
-- difference is at most zero exactly when its terms stand in that order, and the greater of two
-- numbers, the first of which is not less, is the first.
pub record Laws {A : Type 0} (f : Float A) (IsFinite : A → Type 0) : Type 0 where
  pub min-IsFinite : (a b : A) → IsFinite a → IsFinite b → IsFinite (f.min a b)
  pub max-IsFinite : (a b : A) → IsFinite a → IsFinite b → IsFinite (f.max a b)
  pub minus_lem :
      (a b : A) → IsFinite a → IsFinite b → f.at_most (f.minus a b) f.zero ≡ f.at_most a b
  pub max_lem : (a b : A) → IsFinite a → IsFinite b → f.at_most b a ≡ true → f.max a b ≡ a
  pub max_same : (a : A) → IsFinite a → f.max a a ≡ a

-- The four coordinates are finite.
pub record IsBounded {A : Type 0} (IsFinite : A → Type 0) (r : RectVertex A) : Type 0 where
  pub left : IsFinite (r.tl.0)
  pub top : IsFinite (r.tl.1)
  pub right : IsFinite (r.br.0)
  pub bottom : IsFinite (r.br.1)

module _ {A : Type 0} (f : Float A) where
  -- The common part of two rectangles.
  abbrev pub common : RectVertex A → RectVertex A → RectVertex A
  common rect1 rect2 = record {
    tl = (f.max (rect1.tl.0) (rect2.tl.0), f.max (rect1.tl.1) (rect2.tl.1));
    br = (f.min (rect1.br.0) (rect2.br.0), f.min (rect1.br.1) (rect2.br.1));
  }

  -- The vertices stand as their names say, and not on one line.
  abbrev pub is_proper : RectVertex A → Bool
  is_proper r = not (f.at_most (r.br.0) (r.tl.0) || f.at_most (r.br.1) (r.tl.1))

  -- The area of the common part over that of the union.
  abbrev pub share : RectVertex A → RectVertex A → A
  share rect1 rect2 =
      let both = area f (common rect1 rect2) in
      f.divide both (f.minus (f.plus (area f rect1) (area f rect2)) both)

  -- The result of `iou`, from the width and the height of the common part.
  abbrev share_of : RectVertex A → RectVertex A → A → A → A
  share_of rect1 rect2 w h =
      if f.at_most w f.zero || f.at_most h f.zero
      then f.zero
      else f.divide (f.times w h) (f.minus (f.plus (area f rect1) (area f rect2)) (f.times w h))

  if_not : {B : Type 0} (b : Bool) (x y : B) → (if b then x else y) ≡ (if not b then y else x)
  if_not true x y = refl
  if_not false x y = refl

  -- For two rectangles with finite coordinates, the first of which has its left edge not left of the
  -- second one's: `isOverlap` tells whether the common part is proper, and `iou` is its share in the
  -- union, or zero when it is not. The hypothesis on the arithmetic is that, of finite numbers, the
  -- lesser and the greater of two are finite, a difference is at most zero exactly when its terms
  -- stand in that order, and the greater of two is the first if the first is not less.
  pub iou-common :
      (IsFinite : A → Type 0) (laws : Laws f IsFinite) (rect1 rect2 : RectVertex A)
      → IsBounded IsFinite rect1
      → IsBounded IsFinite rect2
      → f.at_most (rect2.tl.0) (rect1.tl.0) ≡ true
      → (is_overlap f rect1 rect2 ≡ is_proper (common rect1 rect2))
        × (iou f rect1 rect2
            ≡ (if is_proper (common rect1 rect2) then share rect1 rect2 else f.zero))
  unfolding iou is_overlap area
  iou-common IsFinite laws rect1 rect2 b1 b2 right =
      let both = common rect1 rect2 in
      let h = f.minus (both.br.1) (both.tl.1) in
      let left =
        laws.max_same (rect1.tl.0) b1.left
        ∙ sym (laws.max_lem (rect1.tl.0) (rect2.tl.0) b1.left b2.left right) in
      let wide =
        laws.minus_lem (both.br.0) (both.tl.0) (laws.min-IsFinite _ _ b1.right b2.right)
          (laws.max-IsFinite _ _ b1.left b2.left) in
      let high =
        laws.minus_lem (both.br.1) (both.tl.1) (laws.min-IsFinite _ _ b1.bottom b2.bottom)
          (laws.max-IsFinite _ _ b1.top b2.top) in
      (
        ap (λ x. not (f.at_most (f.minus (both.br.0) x) f.zero || f.at_most h f.zero)) left
            ∙ ap (λ b. not (b || f.at_most h f.zero)) wide
            ∙ ap (λ b. not (f.at_most (both.br.0) (both.tl.0) || b)) high,
        ap (λ x. share_of rect1 rect2 (f.minus (both.br.0) x) h) left
            ∙ ap (λ b. if b || f.at_most h f.zero then f.zero else share rect1 rect2) wide
            ∙ ap (λ b. if f.at_most (both.br.0) (both.tl.0) || b then f.zero else share rect1 rect2)
                high
            ∙ if_not (f.at_most (both.br.0) (both.tl.0) || f.at_most (both.br.1) (both.tl.1)) _ _,
      )
