-- ===== src/ChatServer.antt =====
-- misce_tests/socket/chat_server.cpp: a server on one thread that waits in `select` for its
-- listening socket and its connections.
-- The calls of the system are a parameter. A socket number that is not below FD_SETSIZE faults in
-- FD_SET, and so does FD_ISSET at -1. What is printed is left out.
pub mod Sockets
pub mod Laws
pub mod Invariant
pub mod Main
mod Tests
use Prim.Native.String.{String}
use miscellaneous.Base.{
  ℕ, zero, suc, ◌+◌, ◌-◌, Bool, true, false, not, ◌&&◌, Option, none, some, ◌==◌, ltb, leb,
  if◌then◌else◌,
}
use miscellaneous.Base.Run.{Run, ok, fault, out_of_fuel, ◌>>=◌, ◌>>◌, require}
use miscellaneous.ChatServer.Sockets.{
  Answer, error, success, FdSet, fd_zero, fd_set, fd_clr, Kernel,
}

-- The variables of `main` that live across the rounds of its loop.
pub record Server (W : Type 0) : Type 0 where
  pub master_set : FdSet
  pub max_sd : ℕ
  pub end_server : Bool
  pub world : W

abbrev pub message : String
message =
    "HTTP/1.1 200 OK\r\nContent-Type: application/json;charset=UTF-8\r\nContent-Length: 45\r\n\r\n{\"result\":\"receive message success, select\"}\r\n"

-- Which of the outcomes a run of `main` has come to: it left through `exit(-1)`, it has not left its
-- loop after the number of rounds asked for, or it returned.
pub data Outcome (W : Type 0) : Type 0 where
  exited : W → Outcome W
  serving : ℕ → Server W → Outcome W
  returned : W → Outcome W

module _ {W : Type 0} (k : Kernel W) where
  -- A call after which an error closes the socket and leaves the program.
  pub or_close : ℕ → (W → Option ℕ × W) → Answer × W → Option ℕ × W
  or_close sd next (error _, w) = (none, k.close sd w)
  or_close sd next (success _, w) = next w

  pub set_up : Answer × W → Option ℕ × W
  set_up (error _, w) = (none, w)
  set_up (success sd, w₀) =
      or_close sd
        (λ w₁.
          or_close sd (λ w₂. or_close sd (λ w₃. (some sd, w₃)) (k.listen sd w₂))
            (k.bind sd (k.set_nonblocking sd w₁)))
        (k.setsockopt sd w₀)

  -- `create_socket1`: no result means `exit(-1)`.
  unfoldable pub create_socket1 : W → Option ℕ × W
  unfolding set_up or_close
  create_socket1 w = set_up (k.socket w)

  -- A new connection joins the master set.
  pub join : ℕ → Server W → W → Run (Server W)
  join new_sd s w =
      require (ltb new_sd k.fd_setsize)
      >> ok (record s {
        master_set = fd_set new_sd s.master_set;
        max_sd = if ltb s.max_sd new_sd then new_sd else s.max_sd;
        world = k.set_nonblocking new_sd w;
      })

  pub accepted : (Server W → Run (Server W)) → Server W → Answer × W → Run (Server W)
  accepted again s (error blocked, w) =
      ok (record s { end_server = if blocked then s.end_server else true; world = w })
  accepted again s (success new_sd, w) = join new_sd s w >>= again

  -- The loop of `accept`.
  pub accept_loop : ℕ → ℕ → Server W → Run (Server W)
  accept_loop zero listenfd s = out_of_fuel
  accept_loop (suc fuel) listenfd s =
      accepted (accept_loop fuel listenfd) s
        (k.accept listenfd (k.set_nonblocking listenfd s.world))

  pub sent : (W → Run (Bool × W)) → Answer × W → Run (Bool × W)
  sent again (error _, w) = ok (true, w)
  sent again (success _, w) = again w

  pub received : (W → Run (Bool × W)) → ℕ → Answer × W → Run (Bool × W)
  received again i (error blocked, w) = ok (not blocked, w)
  received again i (success zero, w) = ok (true, w)
  received again i (success (suc n), w) = sent again (k.send i message w)

  -- The loop of `recv`; its result is `close_conn`.
  pub recv_loop : ℕ → ℕ → W → Run (Bool × W)
  recv_loop zero i w = out_of_fuel
  recv_loop (suc fuel) i w = received (recv_loop fuel i) i (k.recv i w)

  -- `while (FD_ISSET(max_sd, &master_set) == FALSE) max_sd -= 1;`
  pub lower_max : FdSet → ℕ → Run ℕ
  lower_max m zero = if m 0 then ok 0 else fault
  lower_max m (suc n) = if m (suc n) then ok (suc n) else lower_max m n

  -- What `if (close_conn)` guards.
  pub drop_connection : ℕ → Server W → Run (Server W)
  drop_connection i s = do
    let rest = fd_clr i s.master_set
    top ← if i == s.max_sd then lower_max rest s.max_sd else ok s.max_sd
    ok (record s { master_set = rest; max_sd = top; world = k.close i s.world })

  pub serve_connection : ℕ → ℕ → Server W → Run (Server W)
  serve_connection fuel i s = do
    (close_conn, w) ← recv_loop fuel i s.world
    let s' = record s { world = w }
    if close_conn then drop_connection i s' else ok s'

  pub serve : ℕ → ℕ → ℕ → Server W → Run (Server W)
  serve fuel listenfd i s =
      if i == listenfd then accept_loop fuel listenfd s else serve_connection fuel i s

  -- The `for` loop over the working set, from `i` on.
  pub scan : ℕ → ℕ → ℕ → FdSet → ℕ → ℕ → Server W → Run (Server W)
  scan zero fuel listenfd working i desc_ready s = out_of_fuel
  scan (suc n) fuel listenfd working i desc_ready s =
      let served =
        serve fuel listenfd i s >>= scan n fuel listenfd working (i + 1) (desc_ready - 1) in
      let skipped = scan n fuel listenfd working (i + 1) desc_ready s in
      if leb i s.max_sd && ltb 0 desc_ready then (if working i then served else skipped) else ok s

  -- What follows `select` in a round, and whether the round leaves the loop.
  pub selected : ℕ → ℕ → Server W → (Answer × FdSet) × W → Run (Bool × Server W)
  selected fuel listenfd s ((error _, _), w) = ok (true, record s { world = w })
  selected fuel listenfd s ((success zero, _), w) = ok (s.end_server, record s { world = w })
  selected fuel listenfd s ((success (suc n), working), w) = do
    s' ← scan (k.fd_setsize + 1) fuel listenfd working 0 (suc n) (record s { world = w })
    ok (s'.end_server, s')

  -- A round of the outer loop.
  pub round : ℕ → ℕ → Server W → Run (Bool × Server W)
  round fuel listenfd s = selected fuel listenfd s (k.select (s.max_sd + 1) s.master_set s.world)

  -- `for (i = 0; i <= max_sd; ++i)` of the clean-up: `n` rounds from `i` on.
  pub close_all : ℕ → ℕ → FdSet → W → W
  close_all zero i m w = w
  close_all (suc n) i m w = close_all n (i + 1) m (if m i then k.close i w else w)

  -- At most `n` rounds of the outer loop, and the clean-up when they leave it.
  pub server_loop : ℕ → ℕ → ℕ → Server W → Run (Outcome W)
  server_loop zero fuel listenfd s = ok (serving listenfd s)
  server_loop (suc n) fuel listenfd s = do
    (left, s') ← round fuel listenfd s
    let cleaned = ok (returned (close_all (s'.max_sd + 1) 0 s'.master_set s'.world))
    if left then cleaned else server_loop n fuel listenfd s'

  pub start : ℕ → ℕ → Option ℕ × W → Run (Outcome W)
  start n fuel (none, w) = ok (exited w)
  start n fuel (some listenfd, w) =
      require (ltb listenfd k.fd_setsize)
      >> server_loop n fuel listenfd (record {
        master_set = fd_set listenfd fd_zero;
        max_sd = listenfd;
        end_server = false;
        world = w;
      })

  unfoldable pub main : ℕ → ℕ → W → Run (Outcome W)
  unfolding create_socket1 start server_loop round selected scan serve accept_loop accepted join
      serve_connection recv_loop received sent drop_connection lower_max close_all
  main n fuel w = start n fuel (create_socket1 w)
