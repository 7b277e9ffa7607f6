-- ===== src/Loggers/Tests.antt =====
-- The loggers of misce_tests/singleton_protected_constructor/main.cpp.
use miscellaneous.Base.{◌≡◌, refl, none, [], ◌∷◌}
use miscellaneous.Loggers.{constructs, run, construct, all_null, main}
use miscellaneous.Loggers.Alone.{Decided, run_alone}

-- The second logger is made in the life of the first.
two_at_once : run (constructs 1 10 ∷ constructs 2 20 ∷ constructs 1 30 ∷ []) all_null ≡ none
unfolding run construct
two_at_once = refl

run_alone_example : Decided [] (main 10 20) all_null
run_alone_example = run_alone (main 10 20) λ e. (refl, λ e'. (refl, tt))
