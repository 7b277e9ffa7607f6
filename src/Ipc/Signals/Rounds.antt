-- ===== src/Ipc/Signals/Rounds.antt =====
-- ipcCode/sigs/shutdown.c: enough rounds, in each of which both processes get a turn, end both.
use miscellaneous.Base.{
  ℕ, zero, suc, ◌+◌, ◌≤◌, ◌≡◌, refl, ap, ◌∙◌, ◌⊎◌, inl, inr, arith, Bool, true, false, Bool-cases,
  All, List, [], ◌∷◌, ◌++◌, length,
}
use miscellaneous.Ipc.Signals.{
  Child, Parent, starts, sleeps, kills, waits, returns, done, failed, State, is_over, Turn,
  of_child, of_parent, turn, run, forked,
}
use miscellaneous.Ipc.Signals.Stages.{
  IsConsistent, Fits, is_at_work, turn-IsConsistent, run_from, forked-IsConsistent,
}
use miscellaneous.Ipc.Signals.Progress.{left, parent_left, child_left, is_ended, next, turn-Step}
use miscellaneous.Ipc.Signals.Ends.{ended_stays, possible, run-possible, forked_possible}

-- A round has a turn of each process.
abbrev pub Has : Turn → List Turn → Type 0
Has t [] = ⊥
Has t (u ∷ ts) = (u ≡ t) ⊎ Has t ts

abbrev pub HasBoth : List Turn → Type 0
HasBoth ts = Has of_child ts × Has of_parent ts

abbrev pub concat : List (List Turn) → List Turn
concat [] = []
concat (ts ∷ rounds) = ts ++ concat rounds

HasBoth→Has : (t : Turn) (ts : List Turn) → HasBoth ts → Has t ts
HasBoth→Has of_child ts h = h.0
HasBoth→Has of_parent ts h = h.1

run-append :
    (works : Bool) (ts us : List Turn) (s : State)
    → run works (ts ++ us) s ≡ run works us (run works ts s)
unfolding run
run-append works [] us s = refl
run-append works (t ∷ ts) us s = run-append works ts us (turn works t s)

-- The parent has ended, or so many steps are left.
abbrev Near : ℕ → State → Type 0
Near n s = (is_ended s.parent ≡ true) ⊎ (left s ≤ n)

turn-Near :
    (works : Bool) (n : ℕ) (t : Turn) (s : State)
    → IsConsistent s
    → Near n s
    → Near n (turn works t s)
turn-Near works n t s h (inl e) = inl (ended_stays works t s e)
turn-Near works n t s h (inr l) = elim (Bool-cases (is_ended s.parent)) [
  | inl e ↦ inl (ended_stays works t s e)
  | inr e ↦ elim (turn-Step works t s h e) [
    | inl less ↦ inr (omega (arith, less, l))
    | inr same ↦ inr (omega (arith, same.0, l))
  ]
]

run-Near :
    (works : Bool) (n : ℕ) (ts : List Turn) (s : State)
    → IsConsistent s
    → Near n s
    → Near n (run works ts s)
unfolding run
run-Near works n [] s h near = near
run-Near works n (t ∷ ts) s h near =
    run-Near works n ts (turn works t s) (turn-IsConsistent works t s h)
      (turn-Near works n t s h near)

-- A round brings the end nearer.
round-Near :
    (works : Bool) (n : ℕ) (ts : List Turn) (s : State)
    → IsConsistent s
    → Has (next s.parent s.child) ts
    → Near (suc n) s
    → Near n (run works ts s)
unfolding run
round-Near works n [] s h has near = elim has [ ]
round-Near works n (t ∷ ts) s h has (inl e) = run-Near works n (t ∷ ts) s h (inl e)
round-Near works n (t ∷ ts) s h has (inr l) = elim (Bool-cases (is_ended s.parent)) [
  | inl e ↦ run-Near works n (t ∷ ts) s h (inl e)
  | inr e ↦ elim (turn-Step works t s h e) [
    | inl less ↦
        run-Near works n ts (turn works t s) (turn-IsConsistent works t s h)
          (inr (omega (arith, less, l)))
    | inr (same, next_same, p, other) ↦
        round-Near works n ts (turn works t s) (turn-IsConsistent works t s h)
          (rw next_same (elim has [ inl is ↦ absurd (other is) | inr later ↦ later ]))
          (inr (omega (arith, same, l)))
  ]
]

rounds-Near :
    (works : Bool) (rounds : List (List Turn)) (n : ℕ) (s : State)
    → IsConsistent s
    → All HasBoth rounds
    → n ≤ length rounds
    → Near n s
    → Near 0 (run works (concat rounds) s)
unfolding run
rounds-Near works [] n s h all fits near = elim near [
  | inl e ↦ inl e
  | inr l ↦ inr (omega (arith, fits, l))
]
rounds-Near works (ts ∷ rounds) zero s h all fits near =
    run-Near works 0 (concat (ts ∷ rounds)) s h near
rounds-Near works (ts ∷ rounds) (suc n) s h all fits near =
    rw (run-append works ts (concat rounds) s) (
      rounds-Near works rounds n (run works ts s) (run_from works ts s h) all.1
        (omega (arith, fits)) (round-Near works n ts s h (HasBoth→Has _ ts all.0) near))

-- How both end: when kill succeeds, and when it fails.
abbrev pub Outcome : Bool → State → Type 0
Outcome true s = (s.parent ≡ done) × (is_over s.child ≡ true)
Outcome false s = (s.parent ≡ failed) × (is_at_work s.child ≡ true)

outcome :
    (works : Bool) (c : Child) (p : Parent) (b : Bool) (s : State)
    → s.child ≡ c
    → s.parent ≡ p
    → Fits c p b
    → is_ended p ≡ true
    → possible works p ≡ true
    → Outcome works s
outcome true c done b s q r (e, f, g) h k = (r, ap is_over q ∙ g refl)
outcome false c failed b s q r (e, f, g) h k = (r, ap is_at_work q ∙ f refl)
outcome works c starts b s q r f h k = absurd (cc h)
outcome works c sleeps b s q r f h k = absurd (cc h)
outcome works c kills b s q r f h k = absurd (cc h)
outcome works c waits b s q r f h k = absurd (cc h)
outcome works c returns b s q r f h k = absurd (cc h)
outcome true c failed b s q r f h k = absurd (cc k)
outcome false c done b s q r f h k = absurd (cc k)

none_left : (p : Parent) (n : ℕ) → n + parent_left p ≤ 0 → is_ended p ≡ true
none_left starts n h = absurd (omega (arith, h))
none_left sleeps n h = absurd (omega (arith, h))
none_left kills n h = absurd (omega (arith, h))
none_left waits n h = absurd (omega (arith, h))
none_left returns n h = absurd (omega (arith, h))
none_left done n h = refl
none_left failed n h = refl

-- After eleven rounds or more, in each of which both processes get a turn, in
-- any order and any number of them: when kill succeeds, the parent has waited
-- for its child and is done, and the child is over; when it fails, the parent
-- has exited, and the child is still there and works on.
pub run-Outcome :
    (works : Bool) (rounds : List (List Turn))
    → All HasBoth rounds
    → 11 ≤ length rounds
    → Outcome works (run works (concat rounds) forked)
run-Outcome works rounds all enough =
    let s = run works (concat rounds) forked in
    let h : IsConsistent s = run_from works (concat rounds) forked forked-IsConsistent in
    let near : Near 0 s =
      rounds-Near works rounds 11 forked forked-IsConsistent all enough (inr (omega arith)) in
    let ended : is_ended s.parent ≡ true = elim near [
      | inl e ↦ e
      | inr l ↦ none_left s.parent (child_left s.child) l
    ] in
    outcome works s.child s.parent s.pending s refl refl h.fits ended
      (run-possible works (concat rounds) forked (forked_possible works))
