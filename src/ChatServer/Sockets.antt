-- ===== src/ChatServer/Sockets.antt =====
-- The calls that misce_tests/socket/chat_server.cpp makes of the system, and `fd_set`.
use Prim.Native.String.{String}
use miscellaneous.Base.{ℕ, Bool, true, false, ◌==◌, if◌then◌else◌}

-- The result of a call: an error, with the truth of `errno == EWOULDBLOCK`, or a number that is not
-- negative.
pub data Answer : Type 0 where
  error : Bool → Answer
  success : ℕ → Answer

abbrev pub FdSet : Type 0
FdSet = ℕ → Bool

-- FD_ZERO, FD_SET and FD_CLR
abbrev pub fd_zero : FdSet
fd_zero j = false

abbrev pub fd_set : ℕ → FdSet → FdSet
fd_set d s j = if j == d then true else s j

abbrev pub fd_clr : ℕ → FdSet → FdSet
fd_clr d s j = if j == d then false else s j

-- The system, in a state `W`.
pub record Kernel (W : Type 0) : Type 0 where
  pub fd_setsize : ℕ
  pub socket : W → Answer × W
  pub setsockopt : ℕ → W → Answer × W
  pub bind : ℕ → W → Answer × W
  pub listen : ℕ → W → Answer × W
  pub set_nonblocking : ℕ → W → W
  -- The number of descriptors that are ready, and the working set.
  pub select : ℕ → FdSet → W → (Answer × FdSet) × W
  pub accept : ℕ → W → Answer × W
  pub recv : ℕ → W → Answer × W
  pub send : ℕ → String → W → Answer × W
  pub close : ℕ → W → W
