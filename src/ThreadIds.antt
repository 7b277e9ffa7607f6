-- ===== src/ThreadIds.antt =====
-- misce_tests/thread_id/main.cpp: threads that run until a signal stops them. A turn is the handling of
-- a signal, or runs one thread up to its next test of `g_is_running` or its next sleep.
mod Stop
mod Tests
use miscellaneous.Base.{ℕ, Bool, true, false, not, ◌&&◌, ◌==◌, if◌then◌else◌, List, [], ◌∷◌}

-- Other signals are those that end a process by default, or are ignored by default.
pub data Signal : Type 0 where
  sigint sigquit fatal ignored : Signal

abbrev pub stops : Signal → Bool
stops sigint = true
stops sigquit = true
stops fatal = false
stops ignored = false

-- A thread is about to test `g_is_running`, or to sleep and print, or has returned.
pub data Phase : Type 0 where
  testing working exited : Phase

pub record State : Type 0 where
  pub g_is_running : Bool
  pub threads : ℕ → Phase
  -- A signal has ended the process.
  pub killed : Bool

abbrev pub signal_handler : Signal → State → State
signal_handler signum s = if stops signum then record s { g_is_running = false } else s

abbrev pub thread_print_id : Bool → Phase → Phase
thread_print_id true testing = working
thread_print_id false testing = exited
thread_print_id _ working = testing
thread_print_id _ exited = exited

-- `main` calls `signal` for SIGINT only; the others have their default action.
abbrev pub deliver : Signal → State → State
deliver sigint s = signal_handler sigint s
deliver sigquit s = record s { killed = true }
deliver fatal s = record s { killed = true }
deliver ignored s = s

pub data Turn : Type 0 where
  signalled : Signal → Turn
  thread_turn : ℕ → Turn

abbrev pub run_thread : ℕ → State → ℕ → Phase
run_thread i s j = if j == i then thread_print_id s.g_is_running (s.threads j) else s.threads j

abbrev pub take_turn : Turn → State → State
take_turn (signalled signum) s = deliver signum s
take_turn (thread_turn i) s = if s.killed then s else record s { threads = run_thread i s }

unfoldable pub run : List Turn → State → State
run [] s = s
run (t ∷ ts) s = run ts (take_turn t s)

-- `main`, when it has started its threads.
abbrev pub start : State
start = record { g_is_running = true; threads = λ i. testing; killed = false }

abbrev pub is_exited : Phase → Bool
is_exited exited = true
is_exited _ = false

-- The process is there and `join` has returned for each of the three threads, which have the numbers 1 to 3.
abbrev pub joined : State → Bool
joined s =
    not s.killed && is_exited (s.threads 1) && is_exited (s.threads 2) && is_exited (s.threads 3)
