-- ===== src/Ipc/Signals.antt =====
-- ipcCode/sigs/shutdown.c: a process that ends its child by SIGTERM. The processes take turns in any order;
-- a turn is a statement, or for the child to act on the signal when it is there. A sleep may end in any turn.
mod Stages
mod Progress
mod Ends
mod Rounds
mod Tests
use miscellaneous.Base.{Bool, true, false, if◌then◌else◌, List, [], ◌∷◌}

-- What is printed.
pub data Message : Type 0 where
  parent_sleeping kill_failed parent_exits child_woke confirming about_to_terminate
        terminating_now :
      Message

-- Where the child is: `child_code`, then `graceful`, or its end.
pub data Child : Type 0 where
  set_handler sleeping woken : Child
  confirms announces rests terminates leaves : Child
  exited killed : Child

-- Where the parent is in `parent_code`.
pub data Parent : Type 0 where
  starts sleeps kills waits returns done failed : Parent

pub record State : Type 0 where
  pub child : Child
  pub parent : Parent
  pub pending : Bool
  pub log : List Message

abbrev print : Message → State → State
print m s = record s { log = m ∷ s.log }

abbrev child_at : Child → State → State
child_at c s = record s { child = c }

abbrev parent_at : Parent → State → State
parent_at p s = record s { parent = p }

-- The default action of SIGTERM, or the handler, which is called as soon as the signal is there.
abbrev signalled : Child → State → State
signalled c s = record s { child = c; pending = false }

unfoldable pub child_turn : Child → State → State
child_turn set_handler s = if s.pending then signalled killed s else child_at sleeping s
child_turn sleeping s = if s.pending then signalled confirms s else child_at woken s
child_turn woken s =
    if s.pending then signalled confirms s else child_at sleeping (print child_woke s)
child_turn confirms s = child_at announces (print confirming s)
child_turn announces s = child_at rests (print about_to_terminate s)
child_turn rests s = child_at terminates s
child_turn terminates s = child_at leaves (print terminating_now s)
child_turn leaves s = child_at exited s
child_turn exited s = s
child_turn killed s = s

abbrev pub is_over : Child → Bool
is_over exited = true
is_over killed = true
is_over c = false

-- `works` is whether kill succeeds.
unfoldable pub parent_turn : Bool → Parent → State → State
parent_turn works starts s = parent_at sleeps (print parent_sleeping s)
parent_turn works sleeps s = parent_at kills s
parent_turn works kills s =
    if works
    then record s { parent = waits; pending = true }
    else parent_at failed (print kill_failed s)
parent_turn works waits s = if is_over s.child then parent_at returns s else s
parent_turn works returns s = parent_at done (print parent_exits s)
parent_turn works done s = s
parent_turn works failed s = s

pub data Turn : Type 0 where
  of_child of_parent : Turn

abbrev pub turn : Bool → Turn → State → State
turn works of_child s = child_turn s.child s
turn works of_parent s = parent_turn works s.parent s

unfoldable pub run : Bool → List Turn → State → State
run works [] s = s
run works (t ∷ ts) s = run works ts (turn works t s)

-- After a fork that succeeds.
abbrev pub forked : State
forked = record { child = set_handler; parent = starts; pending = false; log = [] }
