-- ===== src/Loggers/Alone.antt =====
-- Loggers: the asserts hold as long as no two objects of a class live at once.
use miscellaneous.Base.{
  ℕ, ◌≡◌, refl, sym, ap, ◌∙◌, ◌⊎◌, inl, inr, arith, true, false, Bool-cases, ◌==◌, if◌then◌else◌,
  List, [], ◌∷◌, Option, none, some, Option-cases,
}
use miscellaneous.Loggers.{
  Statics, assign, construct, destruct, get_instance, Action, constructs, destructs, run, all_null,
}

-- An object that lives: its class and its address.
pub record Object : Type 0 where
  pub kind : ℕ
  pub this : ℕ

-- The object of a class that was made last.
abbrev pub living : ℕ → List Object → Option ℕ
living k [] = none
living k (o ∷ os) = let older = living k os in if k == o.kind then some o.this else older

-- The objects without the last one of a class.
abbrev pub without : ℕ → List Object → List Object
without k [] = []
without k (o ∷ os) = let rest = without k os in if k == o.kind then os else o ∷ rest

-- What the program does is possible: only objects that live are destroyed, as far as it goes on without two
-- of a class.
abbrev pub IsPossible : List Object → List Action → Type 0
IsPossible os [] = Unit
IsPossible os (constructs kind this ∷ actions) =
    living kind os ≡ none → IsPossible (record { kind = kind; this = this } ∷ os) actions
IsPossible os (destructs kind this ∷ actions) =
    (living kind os ≡ some this) × IsPossible (without kind os) actions

-- No object is made while another of its class lives.
abbrev pub OneEach : List Object → List Action → Type 0
OneEach os [] = Unit
OneEach os (constructs kind this ∷ actions) =
    (living kind os ≡ none) × OneEach (record { kind = kind; this = this } ∷ os) actions
OneEach os (destructs kind this ∷ actions) = OneEach (without kind os) actions

-- The objects that live after all.
abbrev pub left : List Object → List Action → List Object
left os [] = os
left os (constructs kind this ∷ actions) = left (record { kind = kind; this = this } ∷ os) actions
left os (destructs kind this ∷ actions) = left (without kind os) actions

-- At most one object of each class.
abbrev Distinct : List Object → Type 0
Distinct [] = Unit
Distinct (o ∷ os) = (living o.kind os ≡ none) × Distinct os

same : (a b : ℕ) → (a == b) ≡ true → a ≡ b
same a b h = ground (arith, h)

other : (j k m : ℕ) → (k == m) ≡ true → (j == k) ≡ false → (j == m) ≡ false
other j k m h g = ground (arith, h, g)

self : (k : ℕ) → (k == k) ≡ true
self k = ground arith

living-without-none :
    (j k : ℕ) (os : List Object) → living j os ≡ none → living j (without k os) ≡ none
living-without-none j k [] e = refl
living-without-none j k (o ∷ os) e = elim (Bool-cases (j == o.kind)) [
  | inl p ↦ absurd (cc (e, ap (λ b. if b then some o.this else living j os) p))
  | inr p ↦
      let e' : living j os ≡ none = cc (e, ap (λ b. if b then some o.this else living j os) p) in
      elim (Bool-cases (k == o.kind)) [
        | inl q ↦ rw q e'
        | inr q ↦ rw (q, p) (living-without-none j k os e')
      ]
]

living-without : (k : ℕ) (os : List Object) → Distinct os → living k (without k os) ≡ none
living-without k [] d = refl
living-without k (o ∷ os) (e, d) = elim (Bool-cases (k == o.kind)) [
  | inl q ↦ rw q (ap (λ m. living m os) (same k o.kind q) ∙ e)
  | inr q ↦ rw (q, q) (living-without k os d)
]

living-without_differs :
    (j k : ℕ) (os : List Object) → (j == k) ≡ false → living j (without k os) ≡ living j os
living-without_differs j k [] n = refl
living-without_differs j k (o ∷ os) n = elim (Bool-cases (k == o.kind)) [
  | inl q ↦ rw (q, other j k o.kind q n) refl
  | inr q ↦
      rw q (ap (λ l. if j == o.kind then some o.this else l) (living-without_differs j k os n))
]

without-Distinct : (k : ℕ) (os : List Object) → Distinct os → Distinct (without k os)
without-Distinct k [] d = tt
without-Distinct k (o ∷ os) (e, d) = elim (Bool-cases (k == o.kind)) [
  | inl q ↦ rw q d
  | inr q ↦ rw q (living-without-none o.kind k os e, without-Distinct k os d)
]

-- Every class knows the object that lives.
abbrev pub Agree : Statics → List Object → Type 0
Agree statics os = (k : ℕ) → get_instance k statics ≡ living k os

construct-Agree :
    (kind this : ℕ) (statics : Statics) (os : List Object)
    → Agree statics os
    → Agree (assign kind (some this) statics) (record { kind = kind; this = this } ∷ os)
unfolding get_instance
construct-Agree kind this statics os h k = ap (λ l. if k == kind then some this else l) (h k)

destruct-Agree :
    (kind : ℕ) (statics : Statics) (os : List Object)
    → Distinct os
    → Agree statics os
    → Agree (assign kind none statics) (without kind os)
unfolding get_instance
destruct-Agree kind statics os d h k = elim (Bool-cases (k == kind)) [
  | inl q ↦
      rw q (
        sym (living-without kind os d) ∙ ap (λ m. living m (without kind os)) (sym (same k kind q)))
  | inr q ↦ rw q (h k ∙ sym (living-without_differs k kind os q))
]

-- What the asserts decide.
abbrev pub Decided : List Object → List Action → Statics → Type 0
Decided os actions statics =
    (OneEach os actions
      × ((after : Statics) × (run actions statics ≡ some after) × Agree after (left os actions)))
    ⊎ ((¬ OneEach os actions) × (run actions statics ≡ none))

run-Decided :
    (actions : List Action) (os : List Object) (statics : Statics)
    → Agree statics os
    → Distinct os
    → IsPossible os actions
    → Decided os actions statics
unfolding run construct destruct get_instance
run-Decided [] os statics h d p = inl (tt, (statics, refl, h))
run-Decided (constructs kind this ∷ actions) os statics h d p =
    elim (Option-cases (living kind os)) [
      | inl e ↦
          rw (h kind, e)
            (elim (run-Decided actions _ (assign kind (some this) statics)
              (construct-Agree kind this statics os h) (e, d) (p e)) [
                | inl (one, after) ↦ inl ((refl, one), after)
                | inr (not_one, stop) ↦ inr (λ one. not_one one.1, stop)
              ])
      | inr (old, e) ↦ inr (λ one. absurd (cc (e, one.0)), rw (h kind, e) refl)
    ]
run-Decided (destructs kind this ∷ actions) os statics h d (e, p) =
    rw (h kind, e)
      (run-Decided actions (without kind os) (assign kind none statics)
        (destruct-Agree kind statics os d h) (without-Distinct kind os d) p)

-- In a program that destroys objects that live only, either no object is ever
-- made while another of its class lives, and then no assert fails, and at the
-- end getInstance of every class gives the object of the class that lives, or
-- null; or one is, and then an assert ends the program.
pub run_alone : (actions : List Action) → IsPossible [] actions → Decided [] actions all_null
unfolding get_instance
run_alone actions p = run-Decided actions [] all_null (λ k. refl) tt p
