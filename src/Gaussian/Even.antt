-- ===== src/Gaussian/Even.antt =====
-- `gaussian` of test_opencv.cpp with a kernel of even size: the loop goes from -center to center, one entry
-- more than the array has.
use miscellaneous.Base.{
  ℕ, zero, suc, ◌+◌, ◌-◌, ◌*◌, ◌/◌, ◌<◌, ◌≤◌, ◌≡◌, refl, ap, ◌∙◌, arith, ◌||◌, ltb, leb, List,
  false, inl, inr, ◌⊎◌, Bool-cases, Option-cases, get_elem?,
}
use miscellaneous.Base.Array.{read}
use miscellaneous.Base.Run.{Run, ok, fault, ◌>>=◌}
use miscellaneous.Gaussian.{
  Double, Mat, read_pixel, get_gaussian_array, add_tap, add_taps, channel_loop, column_loop,
  row_loop, blur_row, gaussian,
}
use miscellaneous.Gaussian.Blur.{read-past}
use miscellaneous.Gaussian.Correct.{read_pixel-inside}

module _ {D : Type 0} (double : Double D) where
  read-cases : (a : List D) (k : ℕ) → (read a k ≡ fault) ⊎ ((d : D) × (read a k ≡ ok d))
  unfolding read
  read-cases a k = elim (Option-cases (get_elem? a k)) [
    | inl e ↦ inl (rw e refl)
    | inr (d, e) ↦ inr (d, rw e refl)
  ]

  module _ (array : List D) (center limit : ℕ) (sample : ℕ → Run ℕ) (value : ℕ → ℕ)
      (samples : (x : ℕ) → x < limit → sample x ≡ ok (value x)) where
    add_tap-faults :
        (k : ℕ) (sum : D)
        → center ≤ k
        → k < limit + center
        → read array k ≡ fault
        → add_tap double array center limit 0 sample k sum ≡ fault
    unfolding add_tap
    add_tap-faults k sum low high eq =
        let inside : (ltb (0 + k) center || leb (limit + center) (0 + k)) ≡ false =
          ground (arith, low, high) in
        rw (inside, samples (0 + k - center) (omega (arith, low, high)), eq) refl

    -- A round ends, and the loop reaches the entry that is missing.
    add_tap-cases :
        (k : ℕ) (sum : D)
        → (add_tap double array center limit 0 sample k sum ≡ fault)
          ⊎ ((sum' : D) × (add_tap double array center limit 0 sample k sum ≡ ok sum'))
    unfolding add_tap
    add_tap-cases k sum = elim (Bool-cases (ltb (0 + k) center || leb (limit + center) (0 + k))) [
      | inl e ↦ rw e (inr (sum, refl))
      | inr e ↦
          let hx : 0 + k - center < limit = ground (arith, e) in
          rw (e, samples (0 + k - center) hx)
            (elim (read-cases array k) [
              | inl f ↦ rw f (inl refl)
              | inr (a, f) ↦ rw f (inr (_, refl))
            ])
    ]

    add_taps-faults :
        (n k : ℕ) (sum : D)
        → center ≤ k + n
        → k + n < limit + center
        → read array (k + n) ≡ fault
        → add_taps double array center limit 0 sample (suc n) k sum ≡ fault
    unfolding add_taps
    add_taps-faults zero k sum low high eq =
        ap (λ r. r >>= ok)
          (add_tap-faults k sum (omega (arith, low)) (omega (arith, high))
            (ap (read array) (omega arith) ∙ eq))
    add_taps-faults (suc n) k sum low high eq = elim (add_tap-cases k sum) [
      | inl e ↦ ap (λ r. r >>= add_taps double array center limit 0 sample (suc n) (suc k)) e
      | inr (sum', e) ↦
          ap (λ r. r >>= add_taps double array center limit 0 sample (suc n) (suc k)) e
          ∙ add_taps-faults n (suc k) sum' (omega (arith, low)) (omega (arith, high))
              (ap (read array) (omega arith) ∙ eq)
    ]

  module _ (compute : ℕ → ℕ → ℕ → Run D) (faults : compute 0 0 0 ≡ fault) where
    -- The first pixel is computed when there is one.
    channel_loop-faults : (n : ℕ) (m : Mat) → 0 < n → channel_loop double compute n 0 0 0 m ≡ fault
    unfolding channel_loop
    channel_loop-faults zero m h = absurd (omega (arith, h))
    channel_loop-faults (suc n) m h = rw faults refl

    column_loop-faults :
        (n : ℕ) (m : Mat) → 0 < n → 0 < m.channels → column_loop double compute n 0 0 m ≡ fault
    unfolding column_loop
    column_loop-faults zero m h g = absurd (omega (arith, h))
    column_loop-faults (suc n) m h g = rw (channel_loop-faults m.channels m g) refl

    row_loop-faults :
        (n : ℕ) (m : Mat)
        → 0 < n
        → 0 < m.cols
        → 0 < m.channels
        → row_loop double compute n 0 m ≡ fault
    unfolding row_loop
    row_loop-faults zero m h g c = absurd (omega (arith, h))
    row_loop-faults (suc n) m h g c = rw (column_loop-faults m.cols m g c) refl

  -- With a kernel of even size, a picture that has a pixel and more columns than
  -- half the size makes the first pass read past the end of the kernel's array.
  pub gaussian-even_faults :
      (sigma : D) (center : ℕ) (src : Mat)
      → 0 < src.rows
      → 0 < src.channels
      → center < src.cols
      → gaussian double (2 * center) sigma src ≡ fault
  unfolding gaussian blur_row
  gaussian-even_faults sigma center src hr hc hw =
      let array = get_gaussian_array double (2 * center) sigma in
      let half : 2 * center / 2 ≡ center = omega arith in
      let missing : read array (0 + 2 * center) ≡ fault =
        read-past double (2 * center) sigma _ (omega arith) in
      let first : blur_row double array center src 0 0 0 ≡ fault =
        ap
          (λ n.
            add_taps double array center src.cols 0 (λ x. read_pixel src 0 (x * src.channels + 0)) n
              0 (double.of_int 0))
          (omega arith)
        ∙ add_taps-faults array center src.cols _ (λ x. src.pixel 0 (x * src.channels + 0))
            (λ x hx. read_pixel-inside src 0 x 0 hr hx hc) (2 * center) 0 (double.of_int 0)
            (omega arith) (omega (arith, hw)) missing in
      rw
        (
          half,
          row_loop-faults (blur_row double array center src) first src.rows src hr
              (omega (arith, hw)) hc,
        )
        refl
