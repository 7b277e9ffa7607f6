-- ===== src/ThreadIds/Tests.antt =====
-- thread_id/main.cpp: threads that are stopped by an interrupt.
use miscellaneous.Base.{List, [], ◌∷◌}
use miscellaneous.ThreadIds.{Turn, thread_turn}

abbrev each : List Turn
each = thread_turn 1 ∷ thread_turn 2 ∷ thread_turn 3 ∷ []

abbrev each_twice : List Turn
each_twice = thread_turn 1 ∷ thread_turn 2 ∷ thread_turn 3 ∷ each
