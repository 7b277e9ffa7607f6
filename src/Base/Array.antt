-- ===== src/Base/Array.antt =====
-- Arrays as lists: reads and writes that fault out of bounds, and exchanging two entries.
use mathlib.Core.Logic.{∥∥₁_elim}
use mathlib.Core.List.Perm
use mathlib.Core.List.{Perm, Permᴰ}
use native.Mathlib.Nat.{ℕ_set}
use Prim.Native.Nat.{ℕ, zero, suc, ◌-◌, ◌<◌}
use mathlib.Core.Path.{◌≡◌, refl, ap, ◌∙◌}
use mathlib.Core.List.{List, [], ◌∷◌}
use mathlib.Core.Option.{some}
use native.Mathlib.Omega.{arith}
use miscellaneous.Base.Tests.{ltb, ◌==◌, if◌then◌else◌}
use miscellaneous.Base.Lists.{length, get_elem?, set, take, length-set}
use miscellaneous.Base.Run.{Run, ok, fault, ◌>>=◌, of_option, Yields, yields}

module _ {ℓ} {A : Type ℓ} where
  -- `a[i]` as a value.
  unfoldable pub read : List A → ℕ → Run A
  read a i = of_option (get_elem? a i)

  -- `std::swap(a[i], a[j])`.
  unfoldable pub swap : List A → ℕ → ℕ → Run (List A)
  unfolding read
  swap a i j = do x ← read a i; y ← read a j; ok (set (set a i y) j x)

  -- `a[i] = v`.
  unfoldable pub write : List A → ℕ → A → Run (List A)
  write a i v = if ltb i (length a) then ok (set a i v) else fault

  -- `back()` and `pop_back()` of a vector that is not empty.
  unfoldable pub back : List A → Run A
  unfolding read
  back a = read a (length a - 1)

  unfoldable pub pop_back : List A → Run (List A)
  pop_back [] = fault
  pop_back (x ∷ a) = ok (take (length a) (x ∷ a))

  pub get_elem?-lt : (a : List A) (i : ℕ) → i < length a → (x : A) × (get_elem? a i ≡ some x)
  get_elem?-lt [] i h = elim h [ ]
  get_elem?-lt (x ∷ a) zero h = (x, refl)
  get_elem?-lt (x ∷ a) (suc i) h = get_elem?-lt a i (omega arith)

  pub lt_of_get_elem? : (a : List A) (i : ℕ) {x : A} → get_elem? a i ≡ some x → i < length a
  lt_of_get_elem? [] i e = cc
  lt_of_get_elem? (x ∷ a) zero e = omega arith
  lt_of_get_elem? (x ∷ a) (suc i) e = omega (arith, lt_of_get_elem? a i e)

  pub get_elem?-set :
      (a : List A) (i : ℕ) (v : A) (c : ℕ)
      → i < length a
      → get_elem? (set a i v) c ≡ (if i == c then some v else get_elem? a c)
  get_elem?-set [] i v c h = elim h [ ]
  get_elem?-set (x ∷ a) zero v zero h = refl
  get_elem?-set (x ∷ a) zero v (suc c) h = ground arith
  get_elem?-set (x ∷ a) (suc i) v zero h = ground arith
  get_elem?-set (x ∷ a) (suc i) v (suc c) h = ground (arith, get_elem?-set a i v c)

  -- Writing `v` over `x` trades one for the other.
  set-perm :
      (a : List A) (i : ℕ) {x : A} (v : A) → get_elem? a i ≡ some x → Perm (x ∷ set a i v) (v ∷ a)
  set-perm [] i v e = cc
  set-perm (y ∷ a) zero {x} v e = let e' : x ≡ y = cc in rw e' (Perm.swap v y a)
  set-perm (y ∷ a) (suc i) {x} v e =
      Perm.trans (Perm.swap y x _) (Perm.trans (Perm.cons y (set-perm a i v e)) (Perm.swap v y a))

  pub length-perm : {a b : List A} → Perm a b → length a ≡ length b
  length-perm p = ∥∥₁_elim p (ℕ_set _ _) count
    where
      count : {a b : List A} → Permᴰ a b → length a ≡ length b
      count Permᴰ.nil = refl
      count (Permᴰ.cons x p) = ap suc (count p)
      count (Permᴰ.swap x y) = refl
      count (Permᴰ.trans p q) = count p ∙ count q

-- `b` is `a` with the entries at `i` and `j` exchanged.
pub record Swapped {ℓ} {A : Type ℓ} (a : List A) (i j : ℕ) (b : List A) : Type ℓ where
  pub size : length b ≡ length a
  pub at :
      (c : ℕ)
      → get_elem? b c
        ≡ (if j == c then get_elem? a i else if i == c then get_elem? a j else get_elem? a c)
  pub same : Perm b a

module _ {ℓ} {A : Type ℓ} (a : List A) (i j : ℕ) (hi : i < length a) (hj : j < length a) where
  exchange :
      {x y : A}
      → get_elem? a i ≡ some x
      → get_elem? a j ≡ some y
      → Swapped a i j (set (set a i y) j x)
  exchange {x} {y} ex ey =
      let b = set a i y in
      let size : length b ≡ length a = length-set a i y in
      let hj' : j < length b = rw size hj in
      let kept : get_elem? b j ≡ some y = rw (get_elem?-set a i y j hi) (ground arith) in
      record {
        size = length-set b j x ∙ size;
        at = λ c. rw (get_elem?-set b j x c hj', get_elem?-set a i y c hi, ex, ey);
        same = Perm.cons_inv (Perm.trans (set-perm b j x kept) (set-perm a i y ex));
      }

  pub swap-Swapped : Yields (Swapped a i j) (swap a i j)
  unfolding swap
  swap-Swapped =
      let (x, ex) = get_elem?-lt a i hi in
      let (y, ey) = get_elem?-lt a j hj in rw (ex, ey) (yields (exchange ex ey))
