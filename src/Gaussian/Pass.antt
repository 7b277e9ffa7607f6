-- ===== src/Gaussian/Pass.antt =====
-- test_opencv.cpp: the loops over the pixels of a picture write each of them once.
use miscellaneous.Base.{
  dec_lt, ℕ, zero, suc, ◌+◌, ◌*◌, ◌<◌, ◌≡◌, refl, sym, ap, ◌∙◌, ◌⊎◌, inl, inr, arith, Bool, true,
  false, ◌&&◌, ltb, ◌==◌, lt→ltb, Bool-cases, if◌then◌else◌,
}
use miscellaneous.Base.Run.{Run, ok, Yields, yields, Yields-bind}
use miscellaneous.Gaussian.{Double, Mat, write_pixel, clamp, channel_loop, column_loop, row_loop}

pub flat_lt : (j j' c c' n : ℕ) → j < j' → c < n → j * n + c < j' * n + c'
flat_lt j j' c c' n h g = grind arith

flat_inj : (j j' c c' n : ℕ) → c < n → c' < n → j * n + c ≡ j' * n + c' → (j ≡ j') × (c ≡ c')
flat_inj j j' c c' n h g eq = elim (dec_lt j j') [
  | yes p ↦ let less = flat_lt j j' c c' n p h in absurd (omega (arith, less, eq))
  | no p ↦ elim (dec_lt j' j) [
    | yes q ↦ let less = flat_lt j' j c' c n q g in absurd (omega (arith, less, eq))
    | no q ↦
        let same : j ≡ j' = omega (arith, p, q) in
        (same, let shifted : j * n ≡ j' * n = ap (λ k. k * n) same in omega (arith, shifted, eq))
  ]
]

pub in_row : (j cols c n : ℕ) → j < cols → c < n → j * n + c < cols * n
in_row j cols c n h g = let less = flat_lt j cols c 0 n h g in omega (arith, less)

-- The pixel is before another in the order of the loops.
abbrev pub Before : ℕ → ℕ → ℕ → ℕ → ℕ → ℕ → Type 0
Before i' j' c' i j c = (i' < i) ⊎ ((i' ≡ i) × ((j' < j) ⊎ ((j' ≡ j) × (c' < c))))

==→≡ : (a b : ℕ) → (a == b) ≡ true → a ≡ b
==→≡ a b h = ground arith

pixel_test : (a b x y : ℕ) → a ≡ b → x ≡ y → (a == b && x == y) ≡ true
pixel_test a b x y h g = ground (arith, h, g)

both_true : (a b : Bool) → (a && b) ≡ true → (a ≡ true) × (b ≡ true)
both_true true b h = (refl, h)
both_true false b h = absurd (cc h)

one_false : (a b : Bool) → a ≡ true → (a && b) ≡ false → b ≡ false
one_false true b p h = h
one_false false b p h = absurd (cc p)

module _ {D : Type 0} (double : Double D) (v : ℕ → ℕ → ℕ → D) (rows cols channels : ℕ) where
  -- The pixels before (i, j, c) have been written.
  pub record Done (i j c : ℕ) (dst : Mat) : Type 0 where
    pub same_rows : dst.rows ≡ rows
    pub same_cols : dst.cols ≡ cols
    pub same_channels : dst.channels ≡ channels
    pub at :
        (i' j' c' : ℕ)
        → j' < cols
        → c' < channels
        → Before i' j' c' i j c
        → dst.pixel i' (j' * channels + c') ≡ clamp double (v i' j' c')

  abbrev stored : ℕ → ℕ → ℕ → ℕ → Mat → Mat
  stored i j c x dst = record dst {
    pixel = λ i' x'. if i' == i && x' == x then clamp double (v i j c) else dst.pixel i' x';
  }

  earlier :
      (i j c i' j' c' x : ℕ)
      → x ≡ j * channels + c
      → (i' == i && j' * channels + c' == x) ≡ false
      → Before i' j' c' i j (suc c)
      → Before i' j' c' i j c
  earlier i j c i' j' c' x eq e (inl p) = inl p
  earlier i j c i' j' c' x eq e (inr (p, inl q)) = inr (p, inl q)
  earlier i j c i' j' c' x eq e (inr (p, inr (q, r))) = elim (dec_lt c' c) [
    | yes s ↦ inr (p, inr (q, s))
    | no s ↦
        let same : j' * channels + c' ≡ x =
          ap (λ k. k * channels + c') q
          ∙ ap (λ k. j * channels + k) (omega (arith, r, s))
          ∙ sym eq in
        absurd (cc (e, pixel_test i' i (j' * channels + c') x p same))
  ]

  stored-Done :
      (i j c : ℕ) (dst : Mat) (x : ℕ)
      → x ≡ j * channels + c
      → c < channels
      → Done i j c dst
      → Done i j (suc c) (stored i j c x dst)
  stored-Done i j c dst x eq h d = record {
    same_rows = d.same_rows;
    same_cols = d.same_cols;
    same_channels = d.same_channels;
    at = λ i' j' c' p q b. elim (Bool-cases (i' == i && j' * channels + c' == x)) [
      | inl e ↦
          let (e1, e2) = both_true (i' == i) _ e in
          let same_i : i' ≡ i = ground (arith, e1) in
          let (same_j, same_c) =
            flat_inj j' j c' c channels q h (==→≡ (j' * channels + c') x e2 ∙ eq) in
          rw e (cc (same_i, same_j, same_c))
      | inr e ↦ rw e (d.at i' j' c' p q (earlier i j c i' j' c' x eq e b))
    ];
  }

  -- Moves to the next column, and to the next row.
  next_column : (i j : ℕ) (dst : Mat) → Done i j channels dst → Done i (suc j) 0 dst
  next_column i j dst d = record {
    same_rows = d.same_rows;
    same_cols = d.same_cols;
    same_channels = d.same_channels;
    at = λ i' j' c' p q b. d.at i' j' c' p q (elim b [
      | inl r ↦ inl r
      | inr (r, inl s) ↦
          inr (r, elim (dec_lt j' j) [ yes t ↦ inl t | no t ↦ inr (omega (arith, s, t), q) ])
      | inr (r, inr (s, t)) ↦ absurd (omega (arith, t))
    ]);
  }

  next_row : (i : ℕ) (dst : Mat) → Done i cols 0 dst → Done (suc i) 0 0 dst
  next_row i dst d = record {
    same_rows = d.same_rows;
    same_cols = d.same_cols;
    same_channels = d.same_channels;
    at = λ i' j' c' p q b. d.at i' j' c' p q (elim b [
      | inl r ↦ elim (dec_lt i' i) [ yes t ↦ inl t | no t ↦ inr (omega (arith, r, t), inl p) ]
      | inr (r, inl s) ↦ absurd (omega (arith, s))
      | inr (r, inr (s, t)) ↦ absurd (omega (arith, t))
    ]);
  }

  test_both : (a b : Bool) → a ≡ true → b ≡ true → (a && b) ≡ true
  test_both true b p q = q
  test_both false b p q = absurd (cc p)

  -- The same place, written in two ways.
  Done_at :
      (i i' j j' c c' : ℕ) (dst : Mat)
      → i ≡ i'
      → j ≡ j'
      → c ≡ c'
      → Done i j c dst
      → Done i' j' c' dst
  Done_at i i' j j' c c' dst p q r d = record {
    same_rows = d.same_rows;
    same_cols = d.same_cols;
    same_channels = d.same_channels;
    at = λ x y z hy hz b. d.at x y z hy hz (rw (p, q, r) b);
  }

  write_pixel-Done :
      (i j c : ℕ) (dst : Mat)
      → i < rows
      → j < cols
      → c < channels
      → Done i j c dst
      → Yields
          (Done i j (suc c))
          (write_pixel dst i (j * dst.channels + c) (clamp double (v i j c)))
  unfolding write_pixel
  write_pixel-Done i j c dst hi hj hc d =
      let inside = in_row j cols c channels hj hc in
      let place : j * dst.channels + c ≡ j * channels + c = ap (λ k. j * k + c) d.same_channels in
      let width : dst.cols * dst.channels ≡ cols * channels = cc (d.same_cols, d.same_channels) in
      let fits : (ltb i dst.rows && ltb (j * dst.channels + c) (dst.cols * dst.channels)) ≡ true =
        test_both (ltb i dst.rows) _ (lt→ltb i dst.rows (omega (arith, hi, d.same_rows))) (
          lt→ltb (j * dst.channels + c) (dst.cols * dst.channels)
            (omega (arith, inside, place, width))) in
      rw fits (yields (stored-Done i j c dst _ place hc d))

  module _ (compute : ℕ → ℕ → ℕ → Run D)
      (computes : (i j c : ℕ)
        → i < rows
        → j < cols
        → c < channels
        → compute i j c ≡ ok (v i j c)) where
    channel_loop-Done :
        (n i j c : ℕ) (dst : Mat)
        → c + n ≡ channels
        → i < rows
        → j < cols
        → Done i j c dst
        → Yields (Done i j channels) (channel_loop double compute n i j c dst)
    unfolding channel_loop
    channel_loop-Done zero i j c dst eq hi hj d =
        yields (Done_at i i j j c channels dst refl refl (omega (arith, eq)) d)
    channel_loop-Done (suc n) i j c dst eq hi hj d = rw (computes i j c hi hj (omega (arith, eq))) (
        Yields-bind (write_pixel-Done i j c dst hi hj (omega (arith, eq)) d)
          λ dst' d'. channel_loop-Done n i j (suc c) dst' (omega (arith, eq)) hi hj d')

    column_loop-Done :
        (n i j : ℕ) (dst : Mat)
        → j + n ≡ cols
        → i < rows
        → Done i j 0 dst
        → Yields (Done i cols 0) (column_loop double compute n i j dst)
    unfolding column_loop
    column_loop-Done zero i j dst eq hi d =
        yields (Done_at i i j cols 0 0 dst refl (omega (arith, eq)) refl d)
    column_loop-Done (suc n) i j dst eq hi d =
        Yields-bind
          (channel_loop-Done dst.channels i j 0 dst (omega (arith, d.same_channels)) hi
            (omega (arith, eq)) d)
          λ dst' d'.
            column_loop-Done n i (suc j) dst' (omega (arith, eq)) hi (next_column i j dst' d')

    pub row_loop-Done :
        (n i : ℕ) (dst : Mat)
        → i + n ≡ rows
        → Done i 0 0 dst
        → Yields (Done rows 0 0) (row_loop double compute n i dst)
    unfolding row_loop
    row_loop-Done zero i dst eq d =
        yields (Done_at i rows 0 0 0 0 dst (omega (arith, eq)) refl refl d)
    row_loop-Done (suc n) i dst eq d =
        Yields-bind
          (column_loop-Done dst.cols i 0 dst (omega (arith, d.same_cols)) (omega (arith, eq)) d)
          λ dst' d'. row_loop-Done n (suc i) dst' (omega (arith, eq)) (next_row i dst' d')
