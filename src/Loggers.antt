-- ===== src/Loggers.antt =====
-- misce_tests/singleton_protected_constructor/main.cpp: loggers that allow one object of each class at a time.
-- A class is the number that it is made from, an object has an address.
mod Alone
mod Tests
use miscellaneous.Base.{
  ℕ, Bool, true, false, ◌==◌, if◌then◌else◌, List, [], ◌∷◌, Option, none, some,
}

-- `m_instance` of every class.
abbrev pub Statics : Type 0
Statics = ℕ → Option ℕ

abbrev pub assign : ℕ → Option ℕ → Statics → Statics
assign kind value statics = λ k. if k == kind then value else statics k

-- `Logger()`; `none` when its assert fails, which ends the program.
abbrev pub when_null : Option ℕ → Statics → Option Statics
when_null none statics = some statics
when_null (some this) statics = none

unfoldable pub construct : ℕ → ℕ → Statics → Option Statics
construct kind this statics = when_null (statics kind) (assign kind (some this) statics)

-- `~Singleton()`
abbrev pub when_set : Option ℕ → Statics → Option Statics
when_set none statics = none
when_set (some this) statics = some statics

unfoldable pub destruct : ℕ → Statics → Option Statics
destruct kind statics = when_set (statics kind) (assign kind none statics)

unfoldable pub get_instance : ℕ → Statics → Option ℕ
get_instance kind statics = statics kind

-- What a program does with loggers.
pub data Action : Type 0 where
  constructs : ℕ → ℕ → Action
  destructs : ℕ → ℕ → Action

abbrev pub act : Action → Statics → Option Statics
act (constructs kind this) statics = construct kind this statics
act (destructs kind this) statics = destruct kind statics

abbrev pub and_then : Option Statics → (Statics → Option Statics) → Option Statics
and_then none f = none
and_then (some statics) f = f statics

unfoldable pub run : List Action → Statics → Option Statics
run [] statics = some statics
run (a ∷ actions) statics = and_then (act a statics) (λ s. run actions s)

-- At the start of the program.
abbrev pub all_null : Statics
all_null = λ kind. none

-- main: a logger in a block of its own, then another.
abbrev pub main : ℕ → ℕ → List Action
main logger1 logger2 =
    constructs 1 logger1 ∷ destructs 1 logger1 ∷ constructs 1 logger2 ∷ destructs 1 logger2 ∷ []
