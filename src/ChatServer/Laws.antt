-- ===== src/ChatServer/Laws.antt =====
-- What misce_tests/socket/chat_server.cpp relies on in the system's sockets.
use Prim.Native.String.{String}
use miscellaneous.Base.{ℕ, zero, suc, ◌<◌, ◌≤◌, ◌≡◌}
use miscellaneous.ChatServer.Sockets.{Answer, error, success, FdSet, fd_set, fd_clr, Kernel}

-- What is observed of the system: the sockets that the program has open, and how many connections
-- and messages wait that it has not taken yet.
pub record View (W : Type 0) : Type 0 where
  pub opened : W → FdSet
  pub traffic : W → ℕ

module _ {W : Type 0} (k : Kernel W) (v : View W) where
  -- No socket is opened or closed, and no traffic comes in.
  pub record Keeps (w w' : W) : Type 0 where
    pub same : v.opened w' ≡ v.opened w
    pub no_more : v.traffic w' ≤ v.traffic w

  -- An error changes nothing; a success opens the socket, whose number FD_SET can take.
  abbrev pub Opens : W → Answer × W → Type 0
  Opens w (error _, w') = Keeps w w'
  Opens w (success d, w') = (v.opened w' ≡ fd_set d (v.opened w)) × (d < k.fd_setsize)

  -- The same, and a connection that is accepted waits no more.
  abbrev pub Accepts : W → Answer × W → Type 0
  Accepts w (error _, w') = Keeps w w'
  Accepts w (success d, w') =
      (v.opened w' ≡ fd_set d (v.opened w)) × (d < k.fd_setsize) × (v.traffic w' < v.traffic w)

  -- Bytes that are received wait no more.
  abbrev pub Receives : W → Answer × W → Type 0
  Receives w (error _, w') = Keeps w w'
  Receives w (success zero, w') = Keeps w w'
  Receives w (success (suc n), w') = (v.opened w' ≡ v.opened w) × (v.traffic w' < v.traffic w)

  -- Traffic comes in while the program waits in `select`, `burst` connections and messages at most.
  pub record Laws : Type 0 where
    pub burst : ℕ
    pub traffic_bounded : (w : W) → v.traffic w ≤ burst
    pub socket_lem : (w : W) → Opens w (k.socket w)
    pub setsockopt_lem : (d : ℕ) (w : W) → Keeps w ((k.setsockopt d w).1)
    pub bind_lem : (d : ℕ) (w : W) → Keeps w ((k.bind d w).1)
    pub listen_lem : (d : ℕ) (w : W) → Keeps w ((k.listen d w).1)
    pub set_nonblocking_lem : (d : ℕ) (w : W) → Keeps w (k.set_nonblocking d w)
    pub select_lem : (d : ℕ) (s : FdSet) (w : W) → v.opened ((k.select d s w).1) ≡ v.opened w
    pub accept_lem : (d : ℕ) (w : W) → Accepts w (k.accept d w)
    pub recv_lem : (d : ℕ) (w : W) → Receives w (k.recv d w)
    pub send_lem : (d : ℕ) (m : String) (w : W) → Keeps w ((k.send d m w).1)
    pub close_lem : (d : ℕ) (w : W) → v.opened (k.close d w) ≡ fd_clr d (v.opened w)
