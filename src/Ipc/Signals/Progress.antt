-- ===== src/Ipc/Signals/Progress.antt =====
-- ipcCode/sigs/shutdown.c: both processes end when both go on getting turns.
use miscellaneous.Base.{
  ℕ, ◌+◌, ◌<◌, ◌≡◌, ◌≢◌, refl, sym, ap, ◌∙◌, ◌⊎◌, inl, inr, arith, Bool, true, false, Bool-cases,
  if◌then◌else◌, List, ◌∷◌,
}
use miscellaneous.Ipc.Signals.{
  Message, child_woke, Child, set_handler, sleeping, woken, confirms, announces, rests, terminates,
  leaves, exited, killed, Parent, starts, sleeps, kills, waits, returns, done, failed, State,
  child_turn, is_over, parent_turn, Turn, of_child, of_parent, turn,
}
use miscellaneous.Ipc.Signals.Stages.{IsConsistent, Fits, is_at_work}

-- The steps that are left.
abbrev pub child_left : Child → ℕ
child_left confirms = 5
child_left announces = 4
child_left rests = 3
child_left terminates = 2
child_left leaves = 1
child_left exited = 0
child_left killed = 0
child_left c = 6

abbrev pub parent_left : Parent → ℕ
parent_left starts = 5
parent_left sleeps = 4
parent_left kills = 3
parent_left waits = 2
parent_left returns = 1
parent_left done = 0
parent_left failed = 0

abbrev pub left : State → ℕ
left s = child_left s.child + parent_left s.parent

abbrev pub is_ended : Parent → Bool
is_ended done = true
is_ended failed = true
is_ended p = false

-- Whose turn brings the end nearer.
abbrev pub next : Parent → Child → Turn
next waits c = if is_over c then of_parent else of_child
next p c = of_parent

-- The turn brings the end nearer, or it is not the one that does and changes nothing about that.
abbrev pub Step : Turn → State → State → Type 0
Step t s s' =
    (left s' < left s)
    ⊎ ((left s' ≡ left s)
        × (next s'.parent s'.child ≡ next s.parent s.child)
        × (s'.parent ≡ s.parent)
        × (t ≢ next s.parent s.child))

nothing_sent :
    (p : Parent) (c : Child)
    → Fits c p false
    → is_at_work c ≡ true
    → (next p c ≡ of_parent) × ((d : Child) → next p d ≡ of_parent)
nothing_sent starts c f w = (refl, λ d. refl)
nothing_sent sleeps c f w = (refl, λ d. refl)
nothing_sent kills c f w = (refl, λ d. refl)
nothing_sent returns c f w = (refl, λ d. refl)
nothing_sent done c f w = (refl, λ d. refl)
nothing_sent failed c f w = (refl, λ d. refl)
nothing_sent waits c (e, f, g) w = absurd (cc (e, w))

over_next : (p : Parent) (c : Child) → is_over c ≡ true → next p c ≡ of_parent
over_next starts c o = refl
over_next sleeps c o = refl
over_next kills c o = refl
over_next returns c o = refl
over_next done c o = refl
over_next failed c o = refl
over_next waits c o = rw o refl

differ : of_child ≢ of_parent
differ e = cc e

-- The child's turn.
idle :
    (c d : Child) (p : Parent) (log log' : List Message)
    → Fits c p false
    → is_at_work c ≡ true
    → child_left d ≡ child_left c
    → Step of_child
        (record { child = c; parent = p; pending = false; log = log })
        (record { child = d; parent = p; pending = false; log = log' })
idle c d p log log' f w e =
    let (h, all) = nothing_sent p c f w in
    inr (ap (λ n. n + parent_left p) e, all d ∙ sym h, refl, λ same. differ (same ∙ h))

child_turn-Step :
    (c : Child) (p : Parent) (b : Bool) (log : List Message)
    → Fits c p b
    → Step of_child
        (record { child = c; parent = p; pending = b; log = log })
        (child_turn c (record { child = c; parent = p; pending = b; log = log }))
unfolding child_turn
child_turn-Step set_handler p true log f = inl (omega arith)
child_turn-Step set_handler p false log f = idle set_handler sleeping p log log f refl refl
child_turn-Step sleeping p true log f = inl (omega arith)
child_turn-Step sleeping p false log f = idle sleeping woken p log log f refl refl
child_turn-Step woken p true log f = inl (omega arith)
child_turn-Step woken p false log f = idle woken sleeping p log (child_woke ∷ log) f refl refl
child_turn-Step confirms p b log f = inl (omega arith)
child_turn-Step announces p b log f = inl (omega arith)
child_turn-Step rests p b log f = inl (omega arith)
child_turn-Step terminates p b log f = inl (omega arith)
child_turn-Step leaves p b log f = inl (omega arith)
child_turn-Step exited p b log f =
    inr (refl, refl, refl, λ same. differ (same ∙ over_next p exited refl))
child_turn-Step killed p b log f =
    inr (refl, refl, refl, λ same. differ (same ∙ over_next p killed refl))

parent_turn-Step :
    (works : Bool) (c : Child) (p : Parent) (b : Bool) (log : List Message)
    → is_ended p ≡ false
    → Step of_parent
        (record { child = c; parent = p; pending = b; log = log })
        (parent_turn works p (record { child = c; parent = p; pending = b; log = log }))
unfolding parent_turn
parent_turn-Step works c starts b log e = inl (omega arith)
parent_turn-Step works c sleeps b log e = inl (omega arith)
parent_turn-Step true c kills b log e = inl (omega arith)
parent_turn-Step false c kills b log e = inl (omega arith)
parent_turn-Step works c waits b log e = elim (Bool-cases (is_over c)) [
  | inl o ↦ rw o (inl (omega arith))
  | inr o ↦ rw o (inr (refl, rw o refl, refl, λ same. differ (sym same)))
]
parent_turn-Step works c returns b log e = inl (omega arith)
parent_turn-Step works c done b log e = absurd (cc e)
parent_turn-Step works c failed b log e = absurd (cc e)

pub turn-Step :
    (works : Bool) (t : Turn) (s : State)
    → IsConsistent s
    → is_ended s.parent ≡ false
    → Step t s (turn works t s)
turn-Step works of_child s h e = child_turn-Step s.child s.parent s.pending s.log h.fits
turn-Step works of_parent s h e = parent_turn-Step works s.child s.parent s.pending s.log e
