-- ===== src/Sessions/Servers.antt =====
-- The servers that answer what they read: misce_tests/socket/socket_server.cpp, and server.c and
-- server_unix.c of ipcCode/sockets.
mod Answers
mod Replies
mod Tests
use miscellaneous.Base.{
  ℕ, zero, suc, Bool, Option, none, some, List, [], ◌∷◌, ◌++◌, Text, text, map,
}
use miscellaneous.Sessions.Calls.{
  socket, unlink, bind, listen, accept, close, write, Log, Env, Prog, attempt, receive, ignore,
  exhausted, on_text, print_string, over, buffer_of, return, ◌>>◌, ◌>>=◌,
}
use miscellaneous.Base.Prog.{or_return}

-- `sizeof("got it")` counts the null at its end.
abbrev pub got_it : Text
got_it = text "got it" ++ (0 ∷ [])

abbrev pub conversation_length : ℕ
conversation_length = 3

module _ (env : Env) where
  -- `buffer` is what is known of the buffer.
  unfoldable pub answer_loop : ℕ → Text → ℕ → Prog Log ℕ
  answer_loop zero buffer rfd = exhausted
  answer_loop (suc fuel) buffer rfd = receive env rfd 256 (return 0) (
      on_text (return 0) λ b. print_string (over b buffer) (
        attempt env (write rfd got_it) (return 1)
          λ _. answer_loop fuel (over got_it (over b buffer)) rfd))

  -- socket_server.cpp, with a port given or not.
  unfoldable pub answer_main : ℕ → Bool → Prog Log ℕ
  answer_main fuel has_port = or_return has_port 1 (
      attempt env socket (return 1) λ sfd. attempt env (bind sfd) (return 1) λ _.
        ignore env (listen sfd)
          (attempt env (accept sfd) (return 1) λ rfd. answer_loop fuel [] rfd))

  -- server.c, the rest of a conversation.
  unfoldable pub confirm_loop : ℕ → ℕ → Prog Log (Unit {0})
  confirm_loop zero client_fd = return tt
  confirm_loop (suc i) client_fd = receive env client_fd 257 (confirm_loop i client_fd) (
      on_text (confirm_loop i client_fd) λ b.
        print_string (buffer_of 257 b)
          (ignore env (write client_fd (buffer_of 257 b)) (confirm_loop i client_fd)))

  -- So many rounds of the loop of `main`.
  unfoldable pub confirm_rounds : ℕ → ℕ → Prog Log (Unit {0})
  confirm_rounds zero fd = return tt
  confirm_rounds (suc n) fd = attempt env (accept fd) (confirm_rounds n fd) λ client_fd.
      confirm_loop conversation_length client_fd
      >> ignore env (close client_fd) (confirm_rounds n fd)

  -- The status of an early exit, else nothing: `main` goes on for ever.
  unfoldable pub confirm_main : ℕ → Prog Log (Option ℕ)
  confirm_main n = attempt env socket (return (some 255)) λ fd.
      attempt env (bind fd) (return (some 255))
        λ _. attempt env (listen fd) (return (some 255)) λ _. confirm_rounds n fd >> return none

  -- server_unix.c, with the `toupper` of the C library on the bytes of a `char`.
  module _ (toupper : ℕ → ℕ) where
    -- What is known of the buffer after the loop.
    unfoldable pub upper_loop : ℕ → Text → ℕ → Prog Log Text
    upper_loop zero buf connfd = exhausted
    upper_loop (suc fuel) buf connfd = receive env connfd 80 (return buf) (
        on_text (return buf) λ b. print_string (over b buf) (
          ignore env (write connfd (map toupper b))
            (upper_loop fuel (over (map toupper b) (over b buf)) connfd)))

    unfoldable pub upper_rounds : ℕ → ℕ → Text → ℕ → Prog Log (Unit {0})
    upper_rounds fuel zero buf listenfd = return tt
    upper_rounds fuel (suc n) buf listenfd =
        attempt env (accept listenfd) (upper_rounds fuel n buf listenfd) λ connfd.
          upper_loop fuel buf connfd >>= λ buf'.
          ignore env (close connfd) (upper_rounds fuel n buf' listenfd)

    unfoldable pub upper_main : ℕ → ℕ → Prog Log (Option ℕ)
    upper_main fuel n = attempt env socket (return (some 1)) λ listenfd. ignore env unlink (
        attempt env (bind listenfd) (return (some 1)) λ _.
          attempt env (listen listenfd) (return (some 1))
            λ _. upper_rounds fuel n [] listenfd >> return none)
