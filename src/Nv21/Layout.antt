-- ===== src/Nv21/Layout.antt =====
-- test_opencv.cpp: where each byte of the NV21 picture comes from.
use miscellaneous.Base.{
  ℕ, zero, suc, ◌+◌, ◌-◌, ◌*◌, ◌/◌, ◌%◌, ◌<◌, ◌≤◌, ◌≡◌, refl, sym, ap, ◌∙◌, arith, false, ltb,
  ltb→lt, lt→ltb, ◌==◌, if◌then◌else◌, some, List, length, get_elem?, length-set, Bool-cases, inl,
  inr,
}
use miscellaneous.Base.Array.{read, write, get_elem?-lt, get_elem?-set}
use miscellaneous.Base.Run.{◌>>=◌, Yields, yields, Yields-bind, Yields-test, Yields-weaken}
use miscellaneous.Nv21.{memcpy, copy_uv, uv_loop, i420_to_nv21}

module _ {A : Type 0} where
  read-Yields :
      (a : List A) (i : ℕ) → i < length a → Yields (λ x. get_elem? a i ≡ some x) (read a i)
  unfolding read
  read-Yields a i h = let (x, e) = get_elem?-lt a i h in rw e (yields refl)

  write-Yields :
      (a : List A) (i : ℕ) (v : A)
      → i < length a
      → Yields
          (λ b.
            (length b ≡ length a)
            × ((c : ℕ) → get_elem? b c ≡ (if i == c then some v else get_elem? a c)))
          (write a i v)
  unfolding write
  write-Yields a i v h =
      Yields-test (ltb i (length a)) (λ _. yields (length-set a i v, λ c. get_elem?-set a i v c h))
        (λ e. absurd (ground arith))

-- The place in an I420 picture of `n` pixels of the byte at `c` of the NV21 picture.
abbrev pub origin : ℕ → ℕ → ℕ
origin n c =
    if ltb c n then c else (if (c - n) % 2 == 0 then n + (n / 4 + (c - n) / 2) else n + (c - n) / 2)

-- The bytes before `m` are in place.
pub record Placed (n m : ℕ) (src dst : List ℕ) : Type 0 where
  pub size : length dst ≡ length src
  pub place : (c : ℕ) → c < m → get_elem? dst c ≡ get_elem? src (origin n c)

-- One more byte is written.
place_next :
    (n m : ℕ) (src dst dst' : List ℕ) (x : ℕ)
    → Placed n m src dst
    → get_elem? src (origin n m) ≡ some x
    → (length dst' ≡ length dst)
      × ((c : ℕ) → get_elem? dst' c ≡ (if m == c then some x else get_elem? dst c))
    → Placed n (suc m) src dst'
place_next n m src dst dst' x p e (size, at) = record {
  size = size ∙ p.size;
  place = λ c h. elim (Bool-cases (m == c)) [
    | inl q ↦
        let same : m ≡ c = ground (arith, q) in
        at c ∙ rw q (sym e ∙ ap (λ k. get_elem? src (origin n k)) same)
    | inr q ↦ at c ∙ rw q (p.place c (ground (arith, q, h)))
  ];
}

up_to : {n m m' : ℕ} {src dst : List ℕ} → m' ≡ m → Placed n m src dst → Placed n m' src dst
up_to eq p = record { size = p.size; place = λ c h. p.place c (omega (arith, eq, h)) }

origin_y : (n i : ℕ) → i < n → origin n i ≡ i
origin_y n i h = ground (arith, h)

origin_v : (n i : ℕ) → i % 2 ≡ 0 → origin n (n + i) ≡ n + (n / 4 + i / 2)
origin_v n i h = ground (arith, h)

origin_u : (n i : ℕ) → i % 2 ≡ 0 → origin n (n + (i + 1)) ≡ n + i / 2
origin_u n i h = ground (arith, h)

module _ (n q : ℕ) (src : List ℕ) (pixels : n ≡ 4 * q) (size : length src ≡ 6 * q) where
  memcpy-Placed :
      (m i : ℕ) (dst : List ℕ)
      → m + i ≡ n
      → Placed n i src dst
      → Yields (Placed n n src) (memcpy m i src dst)
  unfolding memcpy
  memcpy-Placed zero i dst eq p = yields (up_to (omega (arith, eq)) p)
  memcpy-Placed (suc m) i dst eq p =
      Yields-bind (read-Yields src i (omega (arith, eq, pixels, size))) λ x e.
        Yields-bind (write-Yields dst i x (omega (arith, eq, pixels, size, p.size))) λ dst' w.
          memcpy-Placed m (suc i) dst' (omega (arith, eq)) (
            place_next n i src dst dst' x p
              (ap (get_elem? src) (origin_y n i (omega (arith, eq))) ∙ e) w)

  copy_uv-Placed :
      (i : ℕ) (dst : List ℕ)
      → i % 2 ≡ 0
      → i < n / 2
      → Placed n (n + i) src dst
      → Yields (Placed n (n + (i + 2)) src) (copy_uv n i src dst)
  unfolding copy_uv
  copy_uv-Placed i dst even small p =
      Yields-bind (read-Yields src (n + (n / 4 + i / 2)) (omega (arith, small, even, pixels, size)))
        λ v e.
          Yields-bind
            (write-Yields dst (n + i) v (omega (arith, small, even, pixels, size, p.size)))
            λ dst' w.
              let p' =
                place_next n (n + i) src dst dst' v p (ap (get_elem? src) (origin_v n i even) ∙ e)
                  w in
              Yields-bind (read-Yields src (n + i / 2) (omega (arith, small, even, pixels, size)))
                λ u e'.
                  Yields-weaken
                    (λ b w'. up_to (omega arith) (
                      place_next n (n + (i + 1)) src dst' b u (up_to (omega arith) p')
                        (ap (get_elem? src) (origin_u n i even) ∙ e') w'))
                    (write-Yields dst' (n + (i + 1)) u
                      (omega (arith, small, even, pixels, size, p'.size)))

  all_done : (i : ℕ) → ltb i (n / 2) ≡ false → i ≤ 2 * q → 6 * q ≡ n + i
  all_done i e small = ground (arith, e, small, pixels)

  uv_loop-Placed :
      (fuel i : ℕ) (dst : List ℕ)
      → i % 2 ≡ 0
      → i ≤ 2 * q
      → 2 * q < i + fuel
      → Placed n (n + i) src dst
      → Yields (Placed n (6 * q) src) (uv_loop fuel n i src dst)
  unfolding uv_loop
  uv_loop-Placed zero i dst even small enough p = absurd (omega arith)
  uv_loop-Placed (suc fuel) i dst even small enough p =
      Yields-test (ltb i (n / 2))
        (λ e.
          let below = ltb→lt i (n / 2) e in
          Yields-bind (copy_uv-Placed i dst even below p) λ dst' p'.
            uv_loop-Placed fuel (i + 2) dst' (omega (arith, even))
              (omega (arith, even, below, pixels)) (omega (arith, enough)) p')
        (λ e. yields (up_to (all_done i e small) p))

  copy-Placed :
      (fuel : ℕ) (dst : List ℕ)
      → length dst ≡ length src
      → 6 * q < fuel
      → Yields (Placed n (6 * q) src) (memcpy n 0 src dst >>= uv_loop fuel n 0 src)
  copy-Placed fuel dst same enough =
      Yields-bind
        (memcpy-Placed n 0 dst (omega arith)
          (record { size = same; place = λ c h. absurd (omega (arith, h)) }))
        λ dst' p.
          uv_loop-Placed fuel 0 dst' (omega arith) (omega arith) (omega (arith, enough))
            (up_to (omega arith) p)

-- The copy of a picture of `w` by `h` pixels from I420 to NV21, when their number is a multiple of four,
-- three times of it an `int`, the array of the copy as long as the picture, one and a half times that
-- number, and the fuel more than that: no byte is read or written out of bounds, no `int` overflows, and
-- it ends. The copy is as long, begins with the plane of Y, and has the bytes of V and of U by turns
-- then, in their order.
pub i420_to_nv21-Placed :
    (fuel w h q : ℕ) (src dst : List ℕ)
    → w * h ≡ 4 * q
    → w * h * 3 < 2147483648
    → length src ≡ 6 * q
    → length dst ≡ length src
    → 6 * q < fuel
    → Yields (Placed (w * h) (6 * q) src) (i420_to_nv21 fuel w h src dst)
unfolding i420_to_nv21
i420_to_nv21-Placed fuel w h q src dst pixels int size same enough =
    rw (lt→ltb (w * h * 3) 2147483648 int)
      (copy-Placed (w * h) q src pixels size fuel dst same enough)
