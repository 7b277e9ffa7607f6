-- ===== src/Dates/Language.antt =====
-- The texts that a regular expression stands for, with their groups, apart from the search for a match; and
-- that the search finds them.
use miscellaneous.Base.{
  ℕ, ◌≤◌, ◌≡◌, refl, ap, ◌∙◌, ◌⊎◌, inl, inr, arith, true, Bool-cases, if◌then◌else◌, Text, All,
  All-append, List, [], ◌∷◌, ◌++◌, map, some,
}
use miscellaneous.Base.Digits.{in_range}
use miscellaneous.Dates.{
  Regex, Hit, follow, capture, each, matches, is_empty, first_whole, regex_match,
}

-- `Matches r cs s`: the whole of `s` is one of the texts of `r`, and `cs` are its groups.
pub data Matches : Regex → List Text → Text → Type 0 where
  empty : Matches Regex.empty [] []
  range : {a b c : ℕ} → a ≤ c → c ≤ b → Matches (Regex.range a b) [] (c ∷ [])
  seq :
      {p q : Regex} {cs ds : List Text} {s t : Text}
      → Matches p cs s
      → Matches q ds t
      → Matches (Regex.seq p q) (cs ++ ds) (s ++ t)
  alt_left :
      {p q : Regex} {cs : List Text} {s : Text} → Matches p cs s → Matches (Regex.alt p q) cs s
  alt_right :
      {p q : Regex} {cs : List Text} {s : Text} → Matches q cs s → Matches (Regex.alt p q) cs s
  opt_some : {p : Regex} {cs : List Text} {s : Text} → Matches p cs s → Matches (Regex.opt p) cs s
  opt_none : {p : Regex} → Matches (Regex.opt p) [] []
  group :
      {p : Regex} {cs : List Text} {s : Text} → Matches p cs s → Matches (Regex.group p) (s ∷ cs) s

-- A hit is sound: it splits the text, and what it used is in the language.
pub record IsHit (r : Regex) (s : Text) (h : Hit) : Type 0 where
  pub splits : s ≡ h.used ++ h.rest
  pub fits : Matches r h.captures h.used

All-map :
    (P Q : Hit → Type 0) (f : Hit → Hit) (hs : List Hit)
    → ((h : Hit) → P h → Q (f h))
    → All P hs
    → All Q (map f hs)
All-map P Q f [] k all = tt
All-map P Q f (h ∷ hs) k all = (k h all.0, All-map P Q f hs k all.1)

All-weaken : (P Q : Hit → Type 0) (hs : List Hit) → ((h : Hit) → P h → Q h) → All P hs → All Q hs
All-weaken P Q [] k all = tt
All-weaken P Q (h ∷ hs) k all = (k h all.0, All-weaken P Q hs k all.1)

All-each :
    (P Q : Hit → Type 0) (f : Hit → List Hit) (hs : List Hit)
    → ((h : Hit) → P h → All Q (f h))
    → All P hs
    → All Q (each f hs)
All-each P Q f [] k all = tt
All-each P Q f (h ∷ hs) k all =
    All-append Q (f h) (each f hs) (k h all.0) (All-each P Q f hs k all.1)

append_assoc : (s t r : Text) → ((s ++ t) ++ r) ≡ (s ++ (t ++ r))
append_assoc [] t r = refl
append_assoc (c ∷ s) t r = ap (λ x. c ∷ x) (append_assoc s t r)

follow-IsHit :
    (p q : Regex) (s : Text) (h k : Hit)
    → IsHit p s h
    → IsHit q h.rest k
    → IsHit (Regex.seq p q) s (follow h k)
follow-IsHit p q s h k a b = record {
  splits = a.splits ∙ ap (λ r. h.used ++ r) b.splits ∙ cc (append_assoc h.used k.used k.rest);
  fits = Matches.seq a.fits b.fits;
}

All-range :
    (a b c : ℕ) (s : Text)
    → All (IsHit (Regex.range a b) (c ∷ s)) (matches (Regex.range a b) (c ∷ s))
All-range a b c s = elim (Bool-cases (in_range a b c)) [
  | inl e ↦
      rw e
        (record { splits = refl; fits = Matches.range (ground (arith, e)) (ground (arith, e)) }, tt)
  | inr e ↦ rw e tt
]

pub matches-IsHit : (r : Regex) (s : Text) → All (IsHit r s) (matches r s)
matches-IsHit Regex.empty s = (record { splits = refl; fits = Matches.empty }, tt)
matches-IsHit (Regex.range a b) [] = tt
matches-IsHit (Regex.range a b) (c ∷ s) = All-range a b c s
matches-IsHit (Regex.seq p q) s =
    All-each (IsHit p s) _ _ (matches p s)
      (λ h a.
        All-map (IsHit q h.rest) _ (follow h) (matches q h.rest) (λ k b. follow-IsHit p q s h k a b)
          (matches-IsHit q h.rest))
      (matches-IsHit p s)
matches-IsHit (Regex.alt p q) s =
    All-append _ (matches p s) (matches q s)
      (All-weaken _ _ (matches p s)
        (λ h a. record { splits = a.splits; fits = Matches.alt_left a.fits }) (matches-IsHit p s))
      (All-weaken _ _ (matches q s)
        (λ h a. record { splits = a.splits; fits = Matches.alt_right a.fits }) (matches-IsHit q s))
matches-IsHit (Regex.opt p) s =
    All-append _ (matches p s) _
      (All-weaken _ _ (matches p s)
        (λ h a. record { splits = a.splits; fits = Matches.opt_some a.fits }) (matches-IsHit p s))
      (record { splits = refl; fits = Matches.opt_none }, tt)
matches-IsHit (Regex.group p) s =
    All-map (IsHit p s) _ capture (matches p s)
      (λ h a. record { splits = a.splits; fits = Matches.group a.fits }) (matches-IsHit p s)

-- `h` is one of the hits.
abbrev Among : Hit → List Hit → Type 0
Among h [] = ⊥
Among h (k ∷ hs) = (k ≡ h) ⊎ Among h hs

Among-left : (h : Hit) (hs ks : List Hit) → Among h hs → Among h (hs ++ ks)
Among-left h [] ks a = elim a [ ]
Among-left h (k ∷ hs) ks (inl e) = inl e
Among-left h (k ∷ hs) ks (inr a) = inr (Among-left h hs ks a)

Among-right : (h : Hit) (hs ks : List Hit) → Among h ks → Among h (hs ++ ks)
Among-right h [] ks a = a
Among-right h (k ∷ hs) ks a = inr (Among-right h hs ks a)

Among-map : (f : Hit → Hit) (h : Hit) (hs : List Hit) → Among h hs → Among (f h) (map f hs)
Among-map f h [] a = elim a [ ]
Among-map f h (k ∷ hs) (inl e) = inl (ap f e)
Among-map f h (k ∷ hs) (inr a) = inr (Among-map f h hs a)

Among-each :
    (f : Hit → List Hit) (h k : Hit) (hs : List Hit)
    → Among h hs
    → Among k (f h)
    → Among k (each f hs)
Among-each f h k [] a b = elim a [ ]
Among-each f h k (j ∷ hs) (inl e) a = Among-left k (f j) (each f hs) (rw e a)
Among-each f h k (j ∷ hs) (inr b) a = Among-right k (f j) (each f hs) (Among-each f h k hs b a)

abbrev hit : List Text → Text → Text → Hit
hit cs s t = record { captures = cs; used = s; rest = t }

-- The search tries every way.
matches-Among :
    {r : Regex} {cs : List Text} {s : Text}
    → Matches r cs s
    → (t : Text) → Among (hit cs s t) (matches r (s ++ t))
matches-Among Matches.empty t = inl refl
matches-Among (Matches.range {a} {b} {c} low high) t =
    let fits : in_range a b c ≡ true = ground (arith, low, high) in rw fits (inl refl)
matches-Among (Matches.seq {p} {q} {cs} {ds} {s} {t = u} a b) t = rw (append_assoc s u t) (
    Among-each (λ h. map (follow h) (matches q h.rest)) (hit cs s (u ++ t)) _
      (matches p (s ++ (u ++ t))) (matches-Among a (u ++ t))
      (Among-map (follow (hit cs s (u ++ t))) (hit ds u t) (matches q (u ++ t))
        (matches-Among b t)))
matches-Among (Matches.alt_left {p} {q} {cs} {s} a) t =
    Among-left _ (matches p (s ++ t)) _ (matches-Among a t)
matches-Among (Matches.alt_right {p} {q} {cs} {s} a) t =
    Among-right _ (matches p (s ++ t)) _ (matches-Among a t)
matches-Among (Matches.opt_some {p} {cs} {s} a) t =
    Among-left _ (matches p (s ++ t)) _ (matches-Among a t)
matches-Among (Matches.opt_none {p}) t = Among-right _ (matches p t) _ (inl refl)
matches-Among (Matches.group {p} {cs} {s} a) t =
    Among-map capture (hit cs s t) (matches p (s ++ t)) (matches-Among a t)

append_nil : (s : Text) → (s ++ []) ≡ s
append_nil [] = refl
append_nil (c ∷ s) = ap (λ x. c ∷ x) (append_nil s)

Among-same :
    (r : Regex) (h : Hit) (s t : Text) → s ≡ t → Among h (matches r s) → Among h (matches r t)
Among-same r h s t e a = rw (← e) a

nothing_left : (s : Text) → is_empty s ≡ true → s ≡ []
nothing_left [] e = refl
nothing_left (c ∷ s) e = absurd (cc e)

first_whole-some :
    (h : Hit) (hs : List Hit)
    → Among h hs
    → h.rest ≡ []
    → (cs : List Text) × (first_whole hs ≡ some cs)
first_whole-some h [] a e = elim a [ ]
first_whole-some h (k ∷ hs) a e = elim (Bool-cases (is_empty k.rest)) [
  | inl f ↦ rw f (k.captures, refl)
  | inr f ↦ elim a [
    | inl g ↦ absurd (cc (f, ap (λ x. is_empty x.rest) g, e))
    | inr b ↦ rw f (first_whole-some h hs b e)
  ]
]

first_whole-Matches :
    (r : Regex) (s : Text) (hs : List Hit) (cs : List Text)
    → All (IsHit r s) hs
    → first_whole hs ≡ some cs
    → Matches r cs s
first_whole-Matches r s [] cs all e = absurd (cc e)
first_whole-Matches r s (h ∷ hs) cs all e = elim (Bool-cases (is_empty h.rest)) [
  | inl f ↦
      let both : some h.captures ≡ some cs =
        cc (e, ap (λ b. if b then some h.captures else first_whole hs) f) in
      let same : h.captures ≡ cs = cc both in
      let whole : s ≡ h.used =
        all.0.splits ∙ ap (λ t. h.used ++ t) (nothing_left h.rest f) ∙ append_nil h.used in
      rw (← same, whole) all.0.fits
  | inr f ↦
      first_whole-Matches r s hs cs all.1
        (cc (e, ap (λ b. if b then some h.captures else first_whole hs) f))
]

-- `regex_match` finds groups exactly when the whole text is in the language, and
-- they are groups that the language has for it.
pub regex_match-some :
    (r : Regex) {cs : List Text} {s : Text}
    → Matches r cs s
    → (ds : List Text) × (regex_match r s ≡ some ds)
unfolding regex_match
regex_match-some r {cs} {s} a =
    first_whole-some (hit cs s []) (matches r s)
      (Among-same r _ (s ++ []) s (append_nil s) (matches-Among a [])) refl

pub regex_match-Matches :
    (r : Regex) (s : Text) (cs : List Text) → regex_match r s ≡ some cs → Matches r cs s
unfolding regex_match
regex_match-Matches r s cs e = first_whole-Matches r s (matches r s) cs (matches-IsHit r s) e
