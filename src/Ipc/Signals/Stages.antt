-- ===== src/Ipc/Signals/Stages.antt =====
-- ipcCode/sigs/shutdown.c: what holds in every order of the turns.
use miscellaneous.Base.{
  ◌≡◌, refl, sym, ap, Bool, true, false, Bool-cases, inl, inr, ◌&&◌, All, List, [], ◌∷◌, ◌++◌,
}
use miscellaneous.Ipc.Signals.{
  Message, parent_sleeping, kill_failed, parent_exits, child_woke, confirming, about_to_terminate,
  terminating_now, Child, set_handler, sleeping, woken, confirms, announces, rests, terminates,
  leaves, exited, killed, Parent, starts, sleeps, kills, waits, returns, done, failed, State,
  child_turn, is_over, parent_turn, Turn, of_child, of_parent, turn, run, forked,
}

-- What the child has printed, the last first.
abbrev pub child_log : List Message → List Message
child_log [] = []
child_log (child_woke ∷ log) = child_woke ∷ child_log log
child_log (confirming ∷ log) = confirming ∷ child_log log
child_log (about_to_terminate ∷ log) = about_to_terminate ∷ child_log log
child_log (terminating_now ∷ log) = terminating_now ∷ child_log log
child_log (parent_sleeping ∷ log) = child_log log
child_log (kill_failed ∷ log) = child_log log
child_log (parent_exits ∷ log) = child_log log

-- Some words, after any number of the loop's.
abbrev pub Said : List Message → List Message → Type 0
Said words log =
    (before : List Message) × (log ≡ words ++ before) × All (λ m. m ≡ child_woke) before

-- The child's words at a place: those of the handler come once and in order, and last. Without a handler it
-- says nothing.
abbrev pub Talk : Child → List Message → Type 0
Talk set_handler log = log ≡ []
Talk killed log = log ≡ []
Talk sleeping log = Said [] log
Talk woken log = Said [] log
Talk confirms log = Said [] log
Talk announces log = Said (confirming ∷ []) log
Talk rests log = Said (about_to_terminate ∷ confirming ∷ []) log
Talk terminates log = Said (about_to_terminate ∷ confirming ∷ []) log
Talk leaves log = Said (terminating_now ∷ about_to_terminate ∷ confirming ∷ []) log
Talk exited log = Said (terminating_now ∷ about_to_terminate ∷ confirming ∷ []) log

-- The signal has been sent.
abbrev pub sent : Parent → Bool
sent waits = true
sent returns = true
sent done = true
sent p = false

-- The child is where it was before the signal.
abbrev pub is_at_work : Child → Bool
is_at_work set_handler = true
is_at_work sleeping = true
is_at_work woken = true
is_at_work c = false

abbrev pub has_waited : Parent → Bool
has_waited returns = true
has_waited done = true
has_waited p = false

-- The places fit: the child leaves its loop after the signal only, and the parent waits for its end.
abbrev pub Fits : Child → Parent → Bool → Type 0
Fits c p pending =
    (pending ≡ (sent p && is_at_work c))
    × (sent p ≡ false → is_at_work c ≡ true)
    × (has_waited p ≡ true → is_over c ≡ true)

pub record IsConsistent (s : State) : Type 0 where
  pub talk : Talk s.child (child_log s.log)
  pub fits : Fits s.child s.parent s.pending

-- The child acts on the signal: it goes from `c` to `c'`.
signal_taken :
    (c c' : Child) (p : Parent)
    → is_over c ≡ false
    → is_at_work c' ≡ false
    → Fits c p true
    → Fits c' p false
signal_taken c c' starts o w (e, f, g) = absurd (cc e)
signal_taken c c' sleeps o w (e, f, g) = absurd (cc e)
signal_taken c c' kills o w (e, f, g) = absurd (cc e)
signal_taken c c' failed o w (e, f, g) = absurd (cc e)
signal_taken c c' waits o w (e, f, g) = (sym w, λ h. absurd (cc h), λ h. absurd (cc h))
signal_taken c c' returns o w (e, f, g) = absurd (cc (g refl, o))
signal_taken c c' done o w (e, f, g) = absurd (cc (g refl, o))

child_turn-IsConsistent :
    (c : Child) (p : Parent) (b : Bool) (log : List Message)
    → Talk c (child_log log)
    → Fits c p b
    → IsConsistent (child_turn c (record { child = c; parent = p; pending = b; log = log }))
unfolding child_turn
child_turn-IsConsistent set_handler p true log t f = record {
  talk = t;
  fits = signal_taken set_handler killed p refl refl f;
}
child_turn-IsConsistent set_handler p false log t f = record { talk = ([], t, tt); fits = f }
child_turn-IsConsistent sleeping p true log t f = record {
  talk = t;
  fits = signal_taken sleeping confirms p refl refl f;
}
child_turn-IsConsistent sleeping p false log t f = record { talk = t; fits = f }
child_turn-IsConsistent woken p true log t f = record {
  talk = t;
  fits = signal_taken woken confirms p refl refl f;
}
child_turn-IsConsistent woken p false log (before, e, all) f = record {
  talk = (child_woke ∷ before, ap (λ l. child_woke ∷ l) e, (refl, all));
  fits = f;
}
child_turn-IsConsistent confirms p b log (before, e, all) f = record {
  talk = (before, ap (λ l. confirming ∷ l) e, all);
  fits = f;
}
child_turn-IsConsistent announces p b log (before, e, all) f = record {
  talk = (before, ap (λ l. about_to_terminate ∷ l) e, all);
  fits = f;
}
child_turn-IsConsistent rests p b log t f = record { talk = t; fits = f }
child_turn-IsConsistent terminates p b log (before, e, all) f = record {
  talk = (before, ap (λ l. terminating_now ∷ l) e, all);
  fits = f;
}
child_turn-IsConsistent leaves p b log t f = record { talk = t; fits = (f.0, f.1, λ h. refl) }
child_turn-IsConsistent exited p b log t f = record { talk = t; fits = f }
child_turn-IsConsistent killed p b log t f = record { talk = t; fits = f }

parent_turn-IsConsistent :
    (works : Bool) (c : Child) (p : Parent) (b : Bool) (log : List Message)
    → Talk c (child_log log)
    → Fits c p b
    → IsConsistent (parent_turn works p (record { child = c; parent = p; pending = b; log = log }))
unfolding parent_turn
parent_turn-IsConsistent works c starts b log t f = record { talk = t; fits = f }
parent_turn-IsConsistent works c sleeps b log t f = record { talk = t; fits = f }
parent_turn-IsConsistent true c kills b log t (e, f, g) = record {
  talk = t;
  fits = (sym (f refl), λ h. absurd (cc h), λ h. absurd (cc h));
}
parent_turn-IsConsistent false c kills b log t f = record { talk = t; fits = f }
parent_turn-IsConsistent works c waits b log t (e, f, g) = elim (Bool-cases (is_over c)) [
  | inl o ↦ rw o (record { talk = t; fits = (e, f, λ h. o) })
  | inr o ↦ rw o (record { talk = t; fits = (e, f, g) })
]
parent_turn-IsConsistent works c returns b log t f = record { talk = t; fits = f }
parent_turn-IsConsistent works c done b log t f = record { talk = t; fits = f }
parent_turn-IsConsistent works c failed b log t f = record { talk = t; fits = f }

pub turn-IsConsistent :
    (works : Bool) (t : Turn) (s : State) → IsConsistent s → IsConsistent (turn works t s)
turn-IsConsistent works of_child s h =
    child_turn-IsConsistent s.child s.parent s.pending s.log h.talk h.fits
turn-IsConsistent works of_parent s h =
    parent_turn-IsConsistent works s.child s.parent s.pending s.log h.talk h.fits

pub forked-IsConsistent : IsConsistent forked
forked-IsConsistent = record { talk = refl; fits = (refl, λ h. refl, λ h. absurd (cc h)) }

pub run_from :
    (works : Bool) (ts : List Turn) (s : State) → IsConsistent s → IsConsistent (run works ts s)
unfolding run
run_from works [] s h = h
run_from works (t ∷ ts) s h = run_from works ts (turn works t s) (turn-IsConsistent works t s h)

-- In every order of the turns, and whether kill succeeds or not: the child
-- leaves its loop only after the signal was sent; what its handler prints comes
-- in order, once, after all that the loop printed, and all of it before the
-- child exits; a child that SIGTERM kills has no handler yet and has printed
-- nothing; and the parent is past its wait only when the child is over.
pub run-IsConsistent : (works : Bool) (ts : List Turn) → IsConsistent (run works ts forked)
run-IsConsistent works ts = run_from works ts forked forked-IsConsistent
