-- ===== src/Sessions/Clients.antt =====
-- The clients that ask and read an answer: chat_client.cpp and socket_client.cpp of misce_tests/socket,
-- and client.c and client_unix.c of ipcCode/sockets.
mod Dialogues
mod Tests
use miscellaneous.Base.{
  ℕ, zero, suc, Bool, true, false, ltb, ◌==◌, Option, none, some, List, [], ◌∷◌, ◌++◌, Text, text,
}
use miscellaneous.Base.Prog.{or_return}
use miscellaneous.Sessions.Calls.{
  socket, unlink, usleep, host_by_name, set_option, bind, connect, connect_invalid, close, write,
  show, Log, Env, Prog, attempt, receive, ignore, on_text, print_string, buffer_of, return, ◌>>◌,
}

abbrev pub books : List Text
books = text "War and Peace" ∷ text "Pride and Prejudice" ∷ text "The Sound and the Fury" ∷ []

abbrev pub digits : Text
digits = text "12345" ++ (0 ∷ [])

module _ (env : Env) where
  -- chat_client.cpp, on the lines of the standard input.
  unfoldable pub chat_loop : ℕ → List Text → Prog Log ℕ
  chat_loop sock_fd [] = return 0
  chat_loop sock_fd (line ∷ lines) = attempt env (write sock_fd line) (return 0) λ _.
      receive env sock_fd 1024 (return 0)
        λ b. print_string (buffer_of 1024 b) (chat_loop sock_fd lines)

  -- Without a socket, it connects the descriptor -1, which the system refuses.
  unfoldable pub chat_main : List Text → Prog Log ℕ
  chat_main lines =
      attempt env socket (ignore env connect_invalid (return 0))
        λ sock_fd. attempt env (connect sock_fd) (return 0) λ _. chat_loop sock_fd lines

  -- socket_client.cpp, so many rounds of its loop.
  unfoldable pub digits_loop : ℕ → ℕ → Prog Log (Option ℕ)
  digits_loop zero sfd = return none
  digits_loop (suc n) sfd = ignore env (write sfd digits) (
      receive env sfd 20 (ignore env usleep (digits_loop n sfd))
        λ b. print_string (buffer_of 20 b) (ignore env usleep (digits_loop n sfd)))

  -- With enough arguments or not; the status of an early exit, else nothing.
  unfoldable pub digits_main : ℕ → Bool → Prog Log (Option ℕ)
  digits_main n has_address = or_return has_address (some 0) (
      attempt env socket (return (some 0)) λ sfd.
        attempt env (set_option sfd) (return (some 0)) λ _.
          attempt env (set_option sfd) (return (some 0)) λ _.
            attempt env host_by_name (return (some 0))
              λ _. attempt env (connect sfd) (return (some 0)) λ _. digits_loop n sfd)

  -- client.c. `write` has to have written something for an answer to be read.
  unfoldable pub book_turn : ℕ → Bool → Prog Log (Unit {0}) → Prog Log (Unit {0})
  book_turn sockfd false rest = rest
  book_turn sockfd true rest =
      receive env sockfd 257 rest (on_text rest λ b. print_string (buffer_of 257 b) rest)

  unfoldable pub book_loop : ℕ → List Text → Prog Log (Unit {0})
  book_loop sockfd [] = return tt
  book_loop sockfd (book ∷ rest) =
      attempt env (write sockfd book) (book_loop sockfd rest)
        λ written. book_turn sockfd (ltb 0 written) (book_loop sockfd rest)

  -- The result of `gethostbyname` is the type of the host's address.
  unfoldable pub book_main : ℕ → Prog Log ℕ
  book_main af_inet = attempt env socket (return 255) λ sockfd.
      attempt env host_by_name (return 255) λ family. or_return (family == af_inet) 255 (
        attempt env (connect sockfd) (return 255)
          λ _. book_loop sockfd books >> ignore env (close sockfd) (return 0))

  -- client_unix.c, on what `fgets` gives.
  unfoldable pub line_loop : ℕ → List Text → Prog Log (Unit {0})
  line_loop sockfd [] = return tt
  line_loop sockfd (line ∷ lines) = ignore env (write sockfd line) (
      receive env sockfd 80 (line_loop sockfd lines)
        λ b. ignore env (show b) (line_loop sockfd lines))

  unfoldable pub line_main : List Text → Prog Log ℕ
  line_main lines = attempt env socket (return 1) λ sockfd. ignore env unlink (
      attempt env (bind sockfd) (return 1) λ _.
        attempt env (connect sockfd) (return 1)
          λ _. line_loop sockfd lines >> ignore env (close sockfd) (return 0))
