-- ===== src/ChatServer/Main.antt =====
-- misce_tests/socket/chat_server.cpp: the outer loop, the set-up and the clean-up.
use std.Path.{fun_ext, fun_ext⁻}
use miscellaneous.Base.{
  ℕ, zero, suc, ◌+◌, ◌-◌, ◌<◌, ◌≤◌, ◌≡◌, ap, ◌∙◌, Bool, true, false, arith, Option, none, some, ltb,
  lt→ltb, leb, ◌&&◌, if◌then◌else◌,
}
use miscellaneous.Base.Run.{Yields, yields, Yields-bind, Yields-test}
use miscellaneous.ChatServer.{
  Server, Outcome, exited, serving, returned, or_close, set_up, create_socket1, scan, selected,
  round, close_all, server_loop, start, main,
}
use miscellaneous.ChatServer.Sockets.{
  Answer, error, success, FdSet, fd_zero, fd_set, fd_clr, Kernel,
}
use miscellaneous.ChatServer.Laws.{View, Opens, Laws}
use miscellaneous.ChatServer.Invariant.{IsServing, Watches-same, serve-IsServing}

module _ {W : Type 0} (k : Kernel W) (v : View W) where
  -- What each outcome of `main` leaves open: nothing, unless it still serves.
  abbrev pub IsSound : Outcome W → Type 0
  IsSound (exited w) = v.opened w ≡ fd_zero
  IsSound (serving listenfd s) = IsServing k v listenfd s
  IsSound (returned w) = v.opened w ≡ fd_zero

module _ {W : Type 0} (k : Kernel W) (v : View W) (laws : Laws k v) where
  module _ (listenfd fuel : ℕ) (enough : laws.burst < fuel) where
    scan-IsServing :
        (n : ℕ) (working : FdSet) (i desc_ready : ℕ) (s : Server W)
        → n + i ≡ k.fd_setsize + 1
        → i ≤ k.fd_setsize
        → IsServing k v listenfd s
        → Yields (IsServing k v listenfd) (scan k n fuel listenfd working i desc_ready s)
    unfolding scan
    scan-IsServing zero working i r s p q h = ground (arith, p, q)
    scan-IsServing (suc n) working i r s p q h =
        Yields-test (leb i s.max_sd && ltb 0 r)
          (λ go.
            Yields-test (working i)
              (λ ready. Yields-bind (serve-IsServing k v laws listenfd fuel i s enough h) λ s' h'.
                scan-IsServing n working (i + 1) (r - 1) s' (omega (arith, p))
                  (ground (arith, h.small)) h')
              (λ idle.
                scan-IsServing n working (i + 1) r s (omega (arith, p)) (ground (arith, h.small))
                  h))
          (λ done. yields h)

    selected-IsServing :
        (s : Server W) (a : (Answer × FdSet) × W)
        → v.opened a.1 ≡ v.opened s.world
        → IsServing k v listenfd s
        → Yields (λ (_, s'). IsServing k v listenfd s') (selected k fuel listenfd s a)
    unfolding selected
    selected-IsServing s ((error _, _), w) same h = yields (Watches-same k v laws listenfd h same)
    selected-IsServing s ((success zero, _), w) same h =
        yields (Watches-same k v laws listenfd h same)
    selected-IsServing s ((success (suc n), working), w) same h =
        Yields-bind
          (scan-IsServing (k.fd_setsize + 1) working 0 (suc n) (record s { world = w })
            (omega arith) (omega arith) (Watches-same k v laws listenfd h same))
          λ s' h'. yields h'

    round-IsServing :
        (s : Server W)
        → IsServing k v listenfd s
        → Yields (λ (_, s'). IsServing k v listenfd s') (round k fuel listenfd s)
    unfolding round
    round-IsServing s h =
        selected-IsServing s (k.select (s.max_sd + 1) s.master_set s.world)
          (laws.select_lem (s.max_sd + 1) s.master_set s.world) h

  closed_here :
      (i j n : ℕ) (later here : Bool) (w : W)
      → (j ≡ i → later ≡ here)
      → (if leb (i + 1) j && ltb j (n + (i + 1)) && later
          then false
          else v.opened (if here then k.close i w else w) j)
        ≡ (if leb i j && ltb j (suc n + i) && later then false else v.opened w j)
  closed_here i j n later true w eq = ground (arith, fun_ext⁻ (laws.close_lem i w) j)
  closed_here i j n later false w eq = ground arith

  -- The clean-up closes what the master set holds from `i` to `i + n - 1`.
  close_all-opened :
      (n i : ℕ) (m : FdSet) (w : W)
      → v.opened (close_all k n i m w)
        ≡ (λ j. if leb i j && ltb j (n + i) && m j then false else v.opened w j)
  unfolding close_all
  close_all-opened zero i m w = fun_ext λ j. ground arith
  close_all-opened (suc n) i m w = fun_ext λ j.
      let later = fun_ext⁻ (close_all-opened n (i + 1) m (if m i then k.close i w else w)) j in
      later ∙ closed_here i j n (m j) (m i) w (λ eq. ap m eq)

  server_loop-IsSound :
      (listenfd fuel n : ℕ) (s : Server W)
      → laws.burst < fuel
      → IsServing k v listenfd s
      → Yields (IsSound k v) (server_loop k n fuel listenfd s)
  unfolding server_loop
  server_loop-IsSound listenfd fuel zero s f h = yields h
  server_loop-IsSound listenfd fuel (suc n) s f h =
      Yields-bind (round-IsServing listenfd fuel f s h) λ (left, s') h'.
        Yields-test left
          (λ _. yields (
            close_all-opened (s'.max_sd + 1) 0 s'.master_set s'.world
            ∙ fun_ext λ j. ground (arith, h'.upper j, fun_ext⁻ h'.same j)))
          (λ _. server_loop-IsSound listenfd fuel n s' f h')

  -- What `create_socket1` ends with.
  abbrev Made : Option ℕ × W → Type 0
  Made (none, w) = v.opened w ≡ fd_zero
  Made (some sd, w) = (v.opened w ≡ fd_set sd fd_zero) × (sd < k.fd_setsize)

  or_close-Made :
      (sd : ℕ) (next : W → Option ℕ × W) (a : Answer × W)
      → v.opened a.1 ≡ fd_set sd fd_zero
      → Made (next a.1)
      → Made (or_close k sd next a)
  unfolding or_close
  or_close-Made sd next (error _, w) same h =
      laws.close_lem sd w ∙ ap (fd_clr sd) same ∙ fun_ext λ j. ground arith
  or_close-Made sd next (success _, w) same h = h

  set_up-Made : (w : W) (a : Answer × W) → v.opened w ≡ fd_zero → Opens k v w a → Made (set_up k a)
  unfolding set_up
  set_up-Made w (error _, w') none_open law = law.same ∙ none_open
  set_up-Made w (success sd, w₀) none_open (opens, small) =
      let o₀ : v.opened w₀ ≡ fd_set sd fd_zero = opens ∙ ap (fd_set sd) none_open in
      let o₁ = (laws.setsockopt_lem sd w₀).same ∙ o₀ in
      let w₁ = (k.setsockopt sd w₀).1 in
      let unblocked = k.set_nonblocking sd w₁ in
      let o₂ = (laws.bind_lem sd unblocked).same ∙ (laws.set_nonblocking_lem sd w₁).same ∙ o₁ in
      let w₂ = (k.bind sd unblocked).1 in
      let o₃ = (laws.listen_lem sd w₂).same ∙ o₂ in
      or_close-Made sd _ (k.setsockopt sd w₀) o₁ (
        or_close-Made sd _ (k.bind sd unblocked) o₂
          (or_close-Made sd _ (k.listen sd w₂) o₃ (o₃, small)))

  start-IsSound :
      (n fuel : ℕ) (a : Option ℕ × W)
      → laws.burst < fuel
      → Made a
      → Yields (IsSound k v) (start k n fuel a)
  unfolding start
  start-IsSound n fuel (none, w) f h = yields h
  start-IsSound n fuel (some listenfd, w) f (same, small) =
      rw (lt→ltb listenfd k.fd_setsize small) (
        server_loop-IsSound listenfd fuel n _ f (record {
          same = same;
          listening = ground arith;
          highest = ground arith;
          upper = λ j p. ground arith;
          small = small;
        }))

  -- The server on a system that obeys the laws of sockets, started with no socket open: in any number
  -- `n` of rounds, with fuel for the inner loops above the traffic that the system takes in between
  -- two calls of `select`, `main` neither faults nor spends the fuel. It leaves through `exit(-1)` or
  -- returns only with every socket closed, and else it still serves: the master set is exactly the
  -- set of open sockets, has the listening socket in it, and `max_sd` is its greatest member.
  pub main-IsSound :
      (n fuel : ℕ) (w : W)
      → laws.burst < fuel
      → v.opened w ≡ fd_zero
      → Yields (IsSound k v) (main k n fuel w)
  unfolding main create_socket1
  main-IsSound n fuel w f none_open =
      start-IsSound n fuel (create_socket1 k w) f
        (set_up-Made w (k.socket w) none_open (laws.socket_lem w))
