-- ===== src/ThreadIds/Stop.antt =====
-- thread_id/main.cpp: the threads run until a signal stops them, and then stop.
use miscellaneous.Base.{ℕ, suc, ◌≡◌, Bool, false, ◌==◌, if◌then◌else◌, List, [], ◌∷◌}
use miscellaneous.ThreadIds.{
  sigint, sigquit, fatal, ignored, Phase, testing, working, exited, State, Turn, signalled,
  thread_turn, is_exited,
}

-- How many of the turns are a thread's.
abbrev pub turns_of : ℕ → List Turn → ℕ
turns_of i [] = 0
turns_of i (signalled signum ∷ ts) = turns_of i ts
turns_of i (thread_turn j ∷ ts) = if i == j then suc (turns_of i ts) else turns_of i ts

-- How many turns a thread still needs when nothing is running any more.
abbrev needs : Phase → ℕ
needs testing = 1
needs working = 2
needs exited = 0

-- No signal that ends the process comes.
abbrev pub Survives : List Turn → Type 0
Survives [] = Unit {0}
Survives (signalled sigint ∷ ts) = Survives ts
Survives (signalled sigquit ∷ ts) = ⊥
Survives (signalled fatal ∷ ts) = ⊥
Survives (signalled ignored ∷ ts) = Survives ts
Survives (thread_turn j ∷ ts) = Survives ts

-- Nor one that stops the threads.
abbrev pub NoStop : List Turn → Type 0
NoStop [] = Unit {0}
NoStop (signalled ignored ∷ ts) = NoStop ts
NoStop (signalled _ ∷ ts) = ⊥
NoStop (thread_turn j ∷ ts) = NoStop ts

-- The process is there and its threads have been told to stop, or not.
pub record At (running : Bool) (s : State) : Type 0 where
  pub on : s.g_is_running ≡ running
  pub there : s.killed ≡ false

-- A thread has not returned.
abbrev IsAlive : Phase → Type 0
IsAlive p = is_exited p ≡ false
