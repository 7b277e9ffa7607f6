-- ===== src/Sessions/UnixDomain/Outcome.antt =====
-- misce_tests/socket/unix_domain_socket_server.c and unix_domain_socket_client.c: how they end.
use miscellaneous.Base.{ℕ, zero, suc, ◌≡◌, ◌⊎◌, [], ◌∷◌, Text}
use miscellaneous.Sessions.Calls.{Log}
use miscellaneous.Sessions.Ledger.{AllClosed, got, said, unsaid, talk}
use miscellaneous.Sessions.UnixDomain.{server_data, client_data}

-- Status 0 is the end of the conversation; else it breaks off. Either way nothing stays open.
abbrev pub ServerOutcome : ℕ × Log → Type 0
ServerOutcome (zero, l) =
    AllClosed l × ((d : ℕ) × (b : Text) × (talk l ≡ said d server_data ∷ got d b ∷ []))
ServerOutcome (suc _, l) =
    AllClosed l
    × ((talk l ≡ []) ⊎ ((d : ℕ) × (b : Text) × (talk l ≡ unsaid d server_data ∷ got d b ∷ [])))

abbrev pub ClientOutcome : ℕ × Log → Type 0
ClientOutcome (zero, l) =
    AllClosed l × ((d : ℕ) × (b : Text) × (talk l ≡ got d b ∷ said d client_data ∷ []))
ClientOutcome (suc _, l) =
    AllClosed l
    × ((talk l ≡ [])
        ⊎ ((d : ℕ) × ((talk l ≡ unsaid d client_data ∷ []) ⊎ (talk l ≡ said d client_data ∷ []))))
