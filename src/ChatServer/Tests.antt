-- ===== src/ChatServer/Tests.antt =====
-- misce_tests/socket/chat_server.cpp: a run against a system with one client, which connects, sends
-- five bytes and hangs up; after that `select` fails.
use miscellaneous.Base.{ℕ, ◌<◌, ◌≡◌, refl, true, false, arith, ◌==◌}
use miscellaneous.Base.Run.{Yields, yields}
use miscellaneous.ChatServer.{Outcome, returned, main}
use miscellaneous.ChatServer.Sockets.{
  Answer, error, success, FdSet, fd_zero, fd_set, fd_clr, Kernel,
}
use miscellaneous.ChatServer.Laws.{View, Keeps, Accepts, Receives, Laws}
use miscellaneous.ChatServer.Main.{IsSound, main-IsSound}

data Phase : Type 0 where
  calling talking hanging_up : Phase

abbrev System : Type 0
System = Phase × FdSet

abbrev select : System → (Answer × FdSet) × System
select (calling, o) = ((success 1, λ j. j == 3), (calling, o))
select (talking, o) = ((success 1, λ j. j == 4), (talking, o))
select (hanging_up, o) = ((error false, fd_zero), (hanging_up, o))

abbrev accept : System → Answer × System
accept (calling, o) = (success 4, (talking, fd_set 4 o))
accept (talking, o) = (error true, (talking, o))
accept (hanging_up, o) = (error true, (hanging_up, o))

abbrev recv : System → Answer × System
recv (calling, o) = (error true, (calling, o))
recv (talking, o) = (success 5, (hanging_up, o))
recv (hanging_up, o) = (success 0, (hanging_up, o))

abbrev traffic : System → ℕ
traffic (calling, o) = 2
traffic (talking, o) = 1
traffic (hanging_up, o) = 0

abbrev one_client : Kernel System
one_client = record {
  fd_setsize = 1024;
  socket = λ (p, o). (success 3, (p, fd_set 3 o));
  setsockopt = λ d w. (success 0, w);
  bind = λ d w. (success 0, w);
  listen = λ d w. (success 0, w);
  set_nonblocking = λ d w. w;
  select = λ d s. select;
  accept = λ d. accept;
  recv = λ d. recv;
  send = λ d m w. (success 138, w);
  close = λ d (p, o). (p, fd_clr d o);
}

abbrev view : View System
view = record { opened = λ w. w.1; traffic = traffic }

unchanged : (w : System) → Keeps one_client view w w
unchanged w = record { same = refl; no_more = omega arith }

accept_obeys : (w : System) → Accepts one_client view w (accept w)
accept_obeys (calling, o) = (refl, omega arith, omega arith)
accept_obeys (talking, o) = unchanged (talking, o)
accept_obeys (hanging_up, o) = unchanged (hanging_up, o)

recv_obeys : (w : System) → Receives one_client view w (recv w)
recv_obeys (calling, o) = unchanged (calling, o)
recv_obeys (talking, o) = (refl, omega arith)
recv_obeys (hanging_up, o) = unchanged (hanging_up, o)

select_obeys : (w : System) → (select w).1.1 ≡ w.1
select_obeys (calling, o) = refl
select_obeys (talking, o) = refl
select_obeys (hanging_up, o) = refl

traffic_at_most : (w : System) → traffic w < 3
traffic_at_most (calling, o) = omega arith
traffic_at_most (talking, o) = omega arith
traffic_at_most (hanging_up, o) = omega arith

abbrev laws : Laws one_client view
laws = record {
  burst = 2;
  traffic_bounded = λ w. omega (arith, traffic_at_most w);
  socket_lem = λ w. (refl, omega arith);
  setsockopt_lem = λ d. unchanged;
  bind_lem = λ d. unchanged;
  listen_lem = λ d. unchanged;
  set_nonblocking_lem = λ d. unchanged;
  select_lem = λ d s. select_obeys;
  accept_lem = λ d. accept_obeys;
  recv_lem = λ d. recv_obeys;
  send_lem = λ d m. unchanged;
  close_lem = λ d w. refl;
}

abbrev begin : System
begin = (calling, fd_zero)

main-IsSound_example : Yields (IsSound one_client view) (main one_client 3 3 begin)
main-IsSound_example = main-IsSound one_client view laws 3 3 begin (omega arith) refl

-- The phase in which a run of `main` returned.
abbrev ends_in : Outcome System → Phase
ends_in (returned (p, o)) = p
ends_in _ = calling

main_returns : Yields (λ out. ends_in out ≡ hanging_up) (main one_client 3 3 begin)
unfolding main
main_returns = yields refl
