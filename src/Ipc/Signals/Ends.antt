-- ===== src/Ipc/Signals/Ends.antt =====
-- ipcCode/sigs/shutdown.c: where the parent can end.
use miscellaneous.Base.{
  ◌≡◌, refl, ap, ◌∙◌, inl, inr, Bool, true, false, Bool-cases, if◌then◌else◌, List, [], ◌∷◌,
}
use miscellaneous.Ipc.Signals.{
  Child, set_handler, sleeping, woken, confirms, announces, rests, terminates, leaves, exited,
  killed, Parent, starts, sleeps, kills, waits, returns, done, failed, State, is_over, parent_turn,
  child_turn, Turn, of_child, of_parent, turn, run, forked,
}
use miscellaneous.Ipc.Signals.Progress.{is_ended}

same_parent :
    (b : Bool) (s t : State) (p : Parent)
    → s.parent ≡ p
    → t.parent ≡ p
    → (if b then s else t).parent ≡ p
same_parent true s t p q r = q
same_parent false s t p q r = r

child_turn-parent : (c : Child) (s : State) → (child_turn c s).parent ≡ s.parent
unfolding child_turn
child_turn-parent set_handler s = same_parent s.pending _ _ s.parent refl refl
child_turn-parent sleeping s = same_parent s.pending _ _ s.parent refl refl
child_turn-parent woken s = same_parent s.pending _ _ s.parent refl refl
child_turn-parent confirms s = refl
child_turn-parent announces s = refl
child_turn-parent rests s = refl
child_turn-parent terminates s = refl
child_turn-parent leaves s = refl
child_turn-parent exited s = refl
child_turn-parent killed s = refl

parent_stays :
    (works : Bool) (p : Parent) (s : State)
    → s.parent ≡ p
    → is_ended p ≡ true
    → is_ended (parent_turn works p s).parent ≡ true
unfolding parent_turn
parent_stays works starts s q e = absurd (cc e)
parent_stays works sleeps s q e = absurd (cc e)
parent_stays works kills s q e = absurd (cc e)
parent_stays works waits s q e = absurd (cc e)
parent_stays works returns s q e = absurd (cc e)
parent_stays works done s q e = ap is_ended q
parent_stays works failed s q e = ap is_ended q

pub ended_stays :
    (works : Bool) (t : Turn) (s : State)
    → is_ended s.parent ≡ true
    → is_ended (turn works t s).parent ≡ true
ended_stays works of_child s e = ap is_ended (child_turn-parent s.child s) ∙ e
ended_stays works of_parent s e = parent_stays works s.parent s refl e

-- Where the parent can be, as kill succeeds or fails.
abbrev pub possible : Bool → Parent → Bool
possible true failed = false
possible false waits = false
possible false returns = false
possible false done = false
possible works p = true

parent_turn-possible :
    (works : Bool) (p : Parent) (s : State)
    → s.parent ≡ p
    → possible works p ≡ true
    → possible works (parent_turn works p s).parent ≡ true
unfolding parent_turn
parent_turn-possible true starts s q e = refl
parent_turn-possible false starts s q e = refl
parent_turn-possible true sleeps s q e = refl
parent_turn-possible false sleeps s q e = refl
parent_turn-possible true kills s q e = refl
parent_turn-possible false kills s q e = refl
parent_turn-possible true waits s q e = elim (Bool-cases (is_over s.child)) [
  | inl o ↦ rw o refl
  | inr o ↦ rw (o, q) refl
]
parent_turn-possible false waits s q e = absurd (cc e)
parent_turn-possible true returns s q e = refl
parent_turn-possible false returns s q e = absurd (cc e)
parent_turn-possible true done s q e = rw q refl
parent_turn-possible false done s q e = absurd (cc e)
parent_turn-possible true failed s q e = absurd (cc e)
parent_turn-possible false failed s q e = rw q refl

turn-possible :
    (works : Bool) (t : Turn) (s : State)
    → possible works s.parent ≡ true
    → possible works (turn works t s).parent ≡ true
turn-possible works of_child s e = ap (possible works) (child_turn-parent s.child s) ∙ e
turn-possible works of_parent s e = parent_turn-possible works s.parent s refl e

pub run-possible :
    (works : Bool) (ts : List Turn) (s : State)
    → possible works s.parent ≡ true
    → possible works (run works ts s).parent ≡ true
unfolding run
run-possible works [] s e = e
run-possible works (t ∷ ts) s e = run-possible works ts (turn works t s) (turn-possible works t s e)

pub forked_possible : (works : Bool) → possible works forked.parent ≡ true
forked_possible true = refl
forked_possible false = refl
