-- ===== src/Sessions/UnixDomain.antt =====
-- misce_tests/socket/unix_domain_socket_server.c and unix_domain_socket_client.c: one message from
-- the client and one back.
mod Outcome
mod Tests
use miscellaneous.Base.{ℕ, List, [], ◌∷◌, Text, text}
use miscellaneous.Sessions.Calls.{
  socket, unlink, bind, listen, accept, connect, peer_name, close, close_invalid, write, Log, Env,
  Prog, attempt, receive, ignore, print_string, buffer_of, return,
}

abbrev pub server_data : Text
server_data = text "Hello from server"

abbrev pub client_data : Text
client_data = text "Hello from client"

module _ (env : Env) where
  -- The `close` calls before an exit with a status.
  abbrev pub leave : List ℕ → ℕ → Prog Log ℕ
  leave [] status = return status
  leave (d ∷ ds) status = ignore env (close d) (leave ds status)

  unfoldable pub server_main : Prog Log ℕ
  server_main = attempt env socket (return 1) λ server_sock. ignore env unlink (
      attempt env (bind server_sock) (leave (server_sock ∷ []) 1) λ _.
        attempt env (listen server_sock) (leave (server_sock ∷ []) 1) λ _.
          attempt env (accept server_sock)
            (ignore env (close server_sock) (ignore env close_invalid (return 1)))
            λ client_sock.
              attempt env (peer_name client_sock) (leave (server_sock ∷ client_sock ∷ []) 1) λ _.
                receive env client_sock 256 (leave (server_sock ∷ client_sock ∷ []) 1) λ b.
                  print_string (buffer_of 256 b) (
                    attempt env (write client_sock server_data)
                      (leave (server_sock ∷ client_sock ∷ []) 1)
                      λ _. leave (server_sock ∷ client_sock ∷ []) 0))

  unfoldable pub client_main : Prog Log ℕ
  client_main = attempt env socket (return 1) λ client_sock.
      attempt env (connect client_sock) (leave (client_sock ∷ []) 1) λ _.
        attempt env (peer_name client_sock) (leave (client_sock ∷ []) 1) λ _.
          attempt env (write client_sock client_data) (leave (client_sock ∷ []) 1) λ _.
            receive env client_sock 256 (leave (client_sock ∷ []) 1)
              λ b. print_string (buffer_of 256 b) (leave (client_sock ∷ []) 0)
