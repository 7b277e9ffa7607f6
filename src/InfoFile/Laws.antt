-- ===== src/InfoFile/Laws.antt =====
-- stringstream.cpp: what is known of writing and reading numbers, and what follows for lines and lists.
use miscellaneous.Base.{
  ℕ, zero, suc, ◌<◌, ◌^◌, ◌≡◌, refl, ap, ◌∙◌, arith, false, ◌==◌, none, some, List, [], ◌∷◌, ◌++◌,
  map, Text, length, All, All-append,
}
use miscellaneous.Base.Run.{ok, ◌>>=◌}
use miscellaneous.InfoFile.{Format, endl, on_rest, getline, put_all, get_more, get_all}

abbrev pub NoLineEnd : ℕ → Type 0
NoLineEnd c = (c == 10) ≡ false

abbrev pub IsLine : Text → Type 0
IsLine t = All NoLineEnd t

-- A number that is written and read again is the one that `rounded` gives, when it is `Readable`: an
-- infinite `float` is not. Spaces before a number are skipped, and there is no number in nothing.
pub record Laws {N : Type 0} (format : Format N) (Readable : N → Type 0) (rounded : N → N)
    : Type 0 where
  pub get_lem :
      (n : N) (t : Text)
      → Readable n
      → format.get (format.put n ++ (32 ∷ t)) ≡ some (rounded n, 32 ∷ t)
  pub get_line_lem : (n : N) → Readable n → format.get (format.put n) ≡ some (rounded n, [])
  pub skip_lem : (t : Text) → format.get (32 ∷ t) ≡ format.get t
  pub nothing_lem : format.get [] ≡ none
  pub line_lem : (n : N) → IsLine (format.put n)
  -- The number read is written as the other was.
  pub stable_lem : (n : N) → Readable n → format.put (rounded n) ≡ format.put n

-- A size in the range of `int` is read as an `int`.
pub record SizeLaws {I : Type 0} (ints : Format I) (put_size : ℕ → Text) : Type 0 where
  pub as_int : ℕ → I
  pub size_lem :
      (k : ℕ) (t : Text) → k < 2 ^ 31 → ints.get (put_size k ++ (32 ∷ t)) ≡ some (as_int k, 32 ∷ t)
  pub size_line_lem : (k : ℕ) → IsLine (put_size k)

pub getline-endl : (line rest : Text) → IsLine line → getline (endl line rest) ≡ (line, rest)
unfolding getline
getline-endl [] rest h = refl
getline-endl (c ∷ line) rest (p, h) =
    ap (λ b. on_rest c b (endl line rest) (getline (endl line rest))) p
    ∙ ap (on_rest c false (endl line rest)) (getline-endl line rest h)

module _ {N : Type 0} {format : Format N} {Readable : N → Type 0} {rounded : N → N}
    (laws : Laws format Readable rounded) where
  pub put_all-IsLine : (ns : List N) → IsLine (put_all format ns)
  put_all-IsLine [] = tt
  put_all-IsLine (n ∷ ns) =
      All-append NoLineEnd (format.put n) (32 ∷ put_all format ns) (laws.line_lem n)
        (refl, put_all-IsLine ns)

  pub get_all-put_all :
      (fuel : ℕ) (ns : List N)
      → length ns < fuel
      → All Readable ns
      → get_all format fuel (32 ∷ put_all format ns) ≡ ok (map rounded ns)
  unfolding get_all get_more
  get_all-put_all zero ns enough r = absurd (omega arith)
  get_all-put_all (suc fuel) [] enough r =
      ap (get_more format (get_all format fuel)) (laws.skip_lem [] ∙ laws.nothing_lem)
  get_all-put_all (suc fuel) (n ∷ ns) enough (r, rs) =
      ap (get_more format (get_all format fuel))
        (laws.skip_lem _ ∙ laws.get_lem n (put_all format ns) r)
      ∙ ap (λ m. m >>= λ ns'. ok (rounded n ∷ ns')) (get_all-put_all fuel ns (omega arith) rs)

  pub put_all-map :
      (ns : List N) → All Readable ns → put_all format (map rounded ns) ≡ put_all format ns
  put_all-map [] r = refl
  put_all-map (n ∷ ns) (r, rs) =
      ap (λ x. x ++ (32 ∷ put_all format (map rounded ns))) (laws.stable_lem n r)
      ∙ ap (λ x. format.put n ++ (32 ∷ x)) (put_all-map ns rs)

pub length-map : {A B : Type 0} (f : A → B) (xs : List A) → length (map f xs) ≡ length xs
length-map f [] = refl
length-map f (x ∷ xs) = ap suc (length-map f xs)
