-- ===== src/Gaussian/Blur.antt =====
-- test_opencv.cpp: the loop over the kernel adds up the samples near a place.
use miscellaneous.Base.{
  ℕ, zero, suc, ◌+◌, ◌-◌, ◌*◌, ◌/◌, ◌<◌, ◌≤◌, ◌≡◌, refl, sym, ap, ◌∙◌, arith, true, false, ◌||◌,
  ltb, leb, dec_lt, List, [], ◌∷◌, map, length, get_elem?, none, some,
}
use miscellaneous.Base.Array.{read}
use miscellaneous.Base.Run.{Run, ok, fault, ◌>>=◌, of_option}
use miscellaneous.Gaussian.{Double, distance, entry, fill, get_gaussian_array, add_tap, add_taps}
use miscellaneous.Gaussian.Reference.{least, total, bell, away, weight, weighted, near}

distance-away : (i center : ℕ) → distance i center ≡ away i center
distance-away i center = ground arith

module _ {D : Type 0} (double : Double D) where
  -- The code's entry is the value of the curve at its distance from the middle.
  entry-bell : (s2 : D) (center i : ℕ) → entry double s2 center i ≡ bell double s2 (away i center)
  unfolding bell
  entry-bell s2 center i = ap (λ x. bell double s2 x) (distance-away i center)

  fill-total :
      (s2 : D) (center n i : ℕ) (sum : D)
      → (fill double s2 center n i sum).1 ≡ total double s2 center n i sum
  unfolding total
  fill-total s2 center zero i sum = refl
  fill-total s2 center (suc n) i sum =
      fill-total s2 center n (suc i) (double.add sum (entry double s2 center i))
      ∙ ap (λ e. total double s2 center n (suc i) (double.add sum e)) (entry-bell s2 center i)

  get_elem?-fill :
      (f : D → D) (s2 : D) (center n i k j : ℕ) (sum : D)
      → k < n
      → i + k ≡ j
      → get_elem? (map f (fill double s2 center n i sum).0) k ≡ some (f (entry double s2 center j))
  get_elem?-fill f s2 center zero i k j sum h eq = absurd (omega (arith, h))
  get_elem?-fill f s2 center (suc n) i zero j sum h eq =
      ap (λ m. some (f (entry double s2 center m))) (omega (arith, eq))
  get_elem?-fill f s2 center (suc n) i (suc k) j sum h eq =
      get_elem?-fill f s2 center n (suc i) k j _ (omega (arith, h)) (omega (arith, eq))

  length-fill :
      (f : D → D) (s2 : D) (center n i : ℕ) (sum : D)
      → length (map f (fill double s2 center n i sum).0) ≡ n
  length-fill f s2 center zero i sum = refl
  length-fill f s2 center (suc n) i sum = ap suc (length-fill f s2 center n (suc i) _)

  -- The entries of the array, and none after them.
  pub read-get_gaussian_array :
      (size : ℕ) (sigma : D) (k : ℕ)
      → k < size
      → read (get_gaussian_array double size sigma) k ≡ ok (weight double size sigma k)
  unfolding get_gaussian_array read
  read-get_gaussian_array size sigma k h =
      let s2 = double.mul (double.mul (double.of_int 2) sigma) sigma in
      let zero' = double.of_int 0 in
      ap of_option (get_elem?-fill _ s2 (size / 2) size 0 k k zero' h (omega arith))
      ∙ ap (λ t. ok (double.div (entry double s2 (size / 2) k) t))
          (fill-total s2 (size / 2) size 0 zero')
      ∙ ap (λ e. ok (double.div e (total double s2 (size / 2) size 0 zero')))
          (entry-bell s2 (size / 2) k)

  get_elem?-past : {A : Type 0} (xs : List A) (k : ℕ) → length xs ≤ k → get_elem? xs k ≡ none
  get_elem?-past [] k h = refl
  get_elem?-past (x ∷ xs) zero h = absurd (omega (arith, h))
  get_elem?-past (x ∷ xs) (suc k) h = get_elem?-past xs k (omega (arith, h))

  past_of : (l size k : ℕ) → l ≡ size → size ≤ k → l ≤ k
  past_of l size k eq h = omega (arith, eq, h)

  pub read-past :
      (size : ℕ) (sigma : D) (k : ℕ)
      → size ≤ k
      → read (get_gaussian_array double size sigma) k ≡ fault
  unfolding get_gaussian_array read
  read-past size sigma k h =
      let s2 = double.mul (double.mul (double.of_int 2) sigma) sigma in
      let zero' = double.of_int 0 in
      let array = fill double s2 (size / 2) size 0 zero' in
      let long = length-fill (λ a. double.div a array.1) s2 (size / 2) size 0 zero' in
      ap of_option
        (get_elem?-past (map (λ a. double.div a array.1) array.0) k (past_of _ size k long h))

  module _ (array : List D) (center limit pos : ℕ) (sample : ℕ → Run ℕ) (value : ℕ → ℕ)
      (samples : (x : ℕ) → x < limit → sample x ≡ ok (value x)) where
    -- One round, outside the picture and inside it.
    add_tap-skips :
        (k : ℕ) (sum : D)
        → (ltb (pos + k) center || leb (limit + center) (pos + k)) ≡ true
        → add_tap double array center limit pos sample k sum ≡ ok sum
    unfolding add_tap
    add_tap-skips k sum h = rw h refl

    add_tap-adds :
        (k x : ℕ) (sum : D) (a : D)
        → center ≤ pos + k
        → pos + k < limit + center
        → x ≡ pos + k - center
        → read array k ≡ ok a
        → add_tap double array center limit pos sample k sum
          ≡ ok (double.add sum (double.mul (double.of_int (value x)) a))
    unfolding add_tap
    add_tap-adds k x sum a low high ex eq =
        let inside : (ltb (pos + k) center || leb (limit + center) (pos + k)) ≡ false =
          ground (arith, low, high) in
        rw (inside, ← ex, samples x (omega (arith, low, high, ex)), eq) refl

    -- The number of samples that are left.
    same_count :
        (k n x : ℕ)
        → least (pos + k + suc n - center) limit - x ≡ least (pos + suc k + n - center) limit - x
    same_count k n x = ap (λ t. least (t - center) limit - x) (omega arith)

    one_less :
        (k n m x : ℕ)
        → m ≡ least (pos + k + suc n - center) limit - x
        → m - 1 ≡ least (pos + suc k + n - center) limit - suc x
    one_less k n m x em = let em' = em ∙ same_count k n x in omega (arith, em')

    positive :
        (k n m x : ℕ)
        → x ≡ pos + k - center
        → m ≡ least (pos + k + suc n - center) limit - x
        → ¬ (pos + k < center)
        → pos + k < limit + center
        → m ≡ suc (m - 1)
    positive k n m x ex em p q = ground (arith, ex, em, p, q)

    no_count :
        (k n m x : ℕ)
        → x ≡ pos + k - center
        → m ≡ least (pos + k + suc n - center) limit - x
        → ¬ (pos + k < limit + center)
        → m ≡ 0
    no_count k n m x ex em q = ground (arith, ex, em, q)

    past :
        (k n x : ℕ)
        → x ≡ pos + k - center
        → ¬ (pos + k < limit + center)
        → 0 ≡ least (pos + suc k + n - center) limit - suc x
    past k n x ex q = ground (arith, ex, q)

    entry_of : (k x : ℕ) → x ≡ pos + k - center → ¬ (pos + k < center) → k ≡ x + center - pos
    entry_of k x ex p = omega (arith, ex, p)

    module _ (size : ℕ) (w : ℕ → D) (reads : (k : ℕ) → k < size → read array k ≡ ok (w k)) where
      add_taps-weighted :
          (n k m x : ℕ) (sum : D)
          → k + n ≤ size
          → x ≡ pos + k - center
          → m ≡ least (pos + k + n - center) limit - x
          → add_taps double array center limit pos sample n k sum
            ≡ ok (weighted double value w center pos m x sum)
      unfolding add_taps weighted
      add_taps-weighted zero k zero x sum fits ex em = refl
      add_taps-weighted zero k (suc m) x sum fits ex em = absurd (ground (arith, ex, em))
      add_taps-weighted (suc n) k m x sum fits ex em = elim (dec_lt (pos + k) center) [
        | yes p ↦ rw (add_tap-skips k sum (ground (arith, p))) (
            add_taps-weighted n (suc k) m x sum (omega (arith, fits)) (omega (arith, ex, p))
              (em ∙ same_count k n x))
        | no p ↦ elim (dec_lt (pos + k) (limit + center)) [
          | yes q ↦
              let a = reads k (omega (arith, fits)) ∙ ap (λ t. ok (w t)) (entry_of k x ex p) in
              let sum' =
                double.add sum (double.mul (double.of_int (value x)) (w (x + center - pos))) in
              ap (λ r. r >>= add_taps double array center limit pos sample n (suc k))
                (add_tap-adds k x sum _ (omega (arith, p)) q ex a)
              ∙ add_taps-weighted n (suc k) (m - 1) (suc x) sum' (omega (arith, fits))
                  (omega (arith, ex, p)) (one_less k n m x em)
              ∙ ap (λ m'. ok (weighted double value w center pos m' x sum))
                  (sym (positive k n m x ex em p q))
          | no q ↦
              let none_left : m ≡ 0 = no_count k n m x ex em q in
              ap (λ r. r >>= add_taps double array center limit pos sample n (suc k))
                (add_tap-skips k sum (ground (arith, q)))
              ∙ add_taps-weighted n (suc k) 0 (suc x) sum (omega (arith, fits))
                  (omega (arith, ex, p)) (past k n x ex q)
              ∙ ap (λ m'. ok (weighted double value w center pos m' x sum)) (sym none_left)
        ]
      ]

      pub add_taps-near :
          2 * center + 1 ≤ size
          → add_taps double array center limit pos sample (2 * center + 1) 0 (double.of_int 0)
            ≡ ok (near double value w center pos limit)
      unfolding near
      add_taps-near fits =
          add_taps-weighted (2 * center + 1) 0 _ (pos - center) (double.of_int 0)
            (omega (arith, fits)) (omega arith)
            (ap (λ t. least t limit - (pos - center)) (omega arith))

  -- The sum depends on the samples that there are.
  weighted_congr :
      (value value' : ℕ → ℕ) (w : ℕ → D) (center pos limit n x : ℕ) (sum : D)
      → ((y : ℕ) → y < limit → value y ≡ value' y)
      → n ≤ limit - x
      → weighted double value w center pos n x sum ≡ weighted double value' w center pos n x sum
  unfolding weighted
  weighted_congr value value' w center pos limit zero x sum same h = refl
  weighted_congr value value' w center pos limit (suc n) x sum same h =
      rw (same x (omega (arith, h)))
        (weighted_congr value value' w center pos limit n (suc x) _ same (omega (arith, h)))

  pub near_congr :
      (value value' : ℕ → ℕ) (w : ℕ → D) (center pos limit : ℕ)
      → ((y : ℕ) → y < limit → value y ≡ value' y)
      → near double value w center pos limit ≡ near double value' w center pos limit
  unfolding near
  near_congr value value' w center pos limit same =
      weighted_congr value value' w center pos limit _ (pos - center) (double.of_int 0) same
        (fewer center pos limit)
    where
      fewer :
          (center pos limit : ℕ)
          → least (pos + center + 1) limit - (pos - center) ≤ limit - (pos - center)
      fewer center pos limit = ground arith
