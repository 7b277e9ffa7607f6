-- ===== src/ChatServer/Invariant.antt =====
-- misce_tests/socket/chat_server.cpp: what holds whenever the server calls `select`, and that the
-- two inner loops end and keep it.
use miscellaneous.Base.{
  ℕ, zero, suc, ◌<◌, ◌≤◌, ◌≡◌, ap, ◌∙◌, ◌≢◌, Bool, true, false, arith, lt→ltb, ◌==◌, if◌then◌else◌,
}
use miscellaneous.Base.Run.{Run, ok, Yields, yields, Yields-bind, Yields-test, Yields-weaken}
use miscellaneous.ChatServer.{
  Server, message, join, accepted, accept_loop, sent, received, recv_loop, lower_max,
  drop_connection, serve_connection, serve,
}
use miscellaneous.ChatServer.Sockets.{Answer, error, success, FdSet, fd_set, fd_clr, Kernel}
use miscellaneous.ChatServer.Laws.{View, Keeps, Accepts, Receives, Laws}

-- The greatest descriptor of a set up to `n`.
pub record Greatest (m : FdSet) (n t : ℕ) : Type 0 where
  pub member : m t ≡ true
  pub low : t ≤ n
  pub upper : (j : ℕ) → j ≤ n → m j ≡ true → j ≤ t

module _ {W : Type 0} (k : Kernel W) (v : View W) (listenfd : ℕ) where
  -- The master set holds the sockets that are open, the listening one among them, and `max_sd` is the
  -- greatest.
  pub record Watches (m : FdSet) (top : ℕ) (w : W) : Type 0 where
    pub same : v.opened w ≡ m
    pub listening : m listenfd ≡ true
    pub highest : m top ≡ true
    pub upper : (j : ℕ) → m j ≡ true → j ≤ top
    pub small : top < k.fd_setsize

  abbrev pub IsServing : Server W → Type 0
  IsServing s = Watches s.master_set s.max_sd s.world

module _ {W : Type 0} (k : Kernel W) (v : View W) (laws : Laws k v) (listenfd : ℕ) where
  pub Watches-same :
      {m : FdSet} {top : ℕ} {w w' : W}
      → Watches k v listenfd m top w
      → v.opened w' ≡ v.opened w
      → Watches k v listenfd m top w'
  Watches-same h eq = record {
    same = eq ∙ h.same;
    listening = h.listening;
    highest = h.highest;
    upper = h.upper;
    small = h.small;
  }

  Watches-Keeps :
      {m : FdSet} {top : ℕ} {w w' : W}
      → Watches k v listenfd m top w
      → Keeps k v w w'
      → Watches k v listenfd m top w'
  Watches-Keeps h kept = Watches-same h kept.same

  -- What is not at `n + 1` is below it.
  below : (m : FdSet) {n : ℕ} → m (suc n) ≡ false → (j : ℕ) → j ≤ suc n → m j ≡ true → j ≤ n
  below m {n} missing j p h = grind arith

  pub lower_max-Greatest :
      (m : FdSet) (n l : ℕ) → l ≤ n → m l ≡ true → Yields (Greatest m n) (lower_max k m n)
  unfolding lower_max
  lower_max-Greatest m zero l low h =
      Yields-test (m 0)
        (λ member.
          yields (record { member = member; low = omega arith; upper = λ j p q. omega (arith, p) }))
        (λ missing. grind arith)
  lower_max-Greatest m (suc n) l low h =
      Yields-test (m (suc n))
        (λ member.
          yields (record { member = member; low = omega arith; upper = λ j p q. omega (arith, p) }))
        (λ missing.
          Yields-weaken
            (λ t g. record {
              member = g.member;
              low = omega (arith, g.low);
              upper = λ j p q. g.upper j (below m missing j p q) q;
            })
            (lower_max-Greatest m n l (below m missing l low h) h))

  join-IsServing :
      (new_sd : ℕ) (s : Server W) (w₀ w : W)
      → Watches k v listenfd s.master_set s.max_sd w₀
      → Accepts k v w₀ (success new_sd, w)
      → Yields
          (λ s'. IsServing k v listenfd s' × (v.traffic s'.world < v.traffic w₀))
          (join k new_sd s w)
  unfolding join
  join-IsServing new_sd s w₀ w h (opens, small, less) =
      let kept = laws.set_nonblocking_lem new_sd w in
      rw (lt→ltb new_sd k.fd_setsize small) (
        yields (
          record {
            same = kept.same ∙ opens ∙ ap (fd_set new_sd) h.same;
            listening = ground (arith, h.listening);
            highest = ground (arith, h.highest);
            upper = λ j p. ground (arith, h.upper j);
            small = ground (arith, h.small, small);
          },
          omega (arith, less, kept.no_more),
        ))

  accepted-IsServing :
      (n : ℕ) (again : Server W → Run (Server W))
      → ((s' : Server W)
          → IsServing k v listenfd s'
          → v.traffic s'.world < n
          → Yields (IsServing k v listenfd) (again s'))
      → (s : Server W) (w₀ : W) → Watches k v listenfd s.master_set s.max_sd w₀
      → v.traffic w₀ < suc n
      → (a : Answer × W) → Accepts k v w₀ a
      → Yields (IsServing k v listenfd) (accepted k again s a)
  unfolding accepted
  accepted-IsServing n again ih s w₀ h f (error blocked, w) law = yields (Watches-Keeps h law)
  accepted-IsServing n again ih s w₀ h f (success new_sd, w) law =
      Yields-bind (join-IsServing new_sd s w₀ w h law)
        λ s' (h', less). ih s' h' (omega (arith, less))

  accept_loop-IsServing :
      (fuel : ℕ) (s : Server W)
      → IsServing k v listenfd s
      → v.traffic s.world < fuel
      → Yields (IsServing k v listenfd) (accept_loop k fuel listenfd s)
  unfolding accept_loop
  accept_loop-IsServing zero s h f = elim f [ ]
  accept_loop-IsServing (suc fuel) s h f =
      let kept = laws.set_nonblocking_lem listenfd s.world in
      accepted-IsServing fuel (accept_loop k fuel listenfd) (accept_loop-IsServing fuel) s
        (k.set_nonblocking listenfd s.world) (Watches-Keeps h kept) (omega (arith, kept.no_more))
        (k.accept listenfd (k.set_nonblocking listenfd s.world))
        (laws.accept_lem listenfd (k.set_nonblocking listenfd s.world))

  -- What a loop of `recv` keeps.
  abbrev Kept : W → Bool × W → Type 0
  Kept w (_, w') = v.opened w' ≡ v.opened w

  sent-keeps :
      (again : W → Run (Bool × W)) (w w' : W)
      → v.opened w' ≡ v.opened w
      → (a : Answer × W) → v.opened a.1 ≡ v.opened w'
      → Yields (Kept a.1) (again a.1)
      → Yields (Kept w) (sent k again a)
  unfolding sent
  sent-keeps again w w' same (error _, w'') eq next = yields (eq ∙ same)
  sent-keeps again w w' same (success _, w'') eq next = Yields-weaken (λ _ h. h ∙ eq ∙ same) next

  received-keeps :
      (n : ℕ) (again : W → Run (Bool × W))
      → ((w' : W) → v.traffic w' < n → Yields (Kept w') (again w'))
      → (i : ℕ) (w : W) → v.traffic w < suc n
      → (a : Answer × W) → Receives k v w a
      → Yields (Kept w) (received k again i a)
  unfolding received
  received-keeps n again ih i w f (error blocked, w') law = yields law.same
  received-keeps n again ih i w f (success zero, w') law = yields law.same
  received-keeps n again ih i w f (success (suc r), w') (same, less) =
      let kept = laws.send_lem i message w' in
      sent-keeps again w w' same (k.send i message w') kept.same
        (ih (k.send i message w').1 (omega (arith, less, kept.no_more)))

  recv_loop-keeps :
      (fuel i : ℕ) (w : W) → v.traffic w < fuel → Yields (Kept w) (recv_loop k fuel i w)
  unfolding recv_loop
  recv_loop-keeps zero i w f = elim f [ ]
  recv_loop-keeps (suc fuel) i w f =
      received-keeps fuel (recv_loop k fuel i) (recv_loop-keeps fuel i) i w f (k.recv i w)
        (laws.recv_lem i w)

  drop_connection-IsServing :
      (i : ℕ) (s : Server W)
      → i ≢ listenfd
      → IsServing k v listenfd s
      → Yields (IsServing k v listenfd) (drop_connection k i s)
  unfolding drop_connection
  drop_connection-IsServing i s other h =
      let rest = fd_clr i s.master_set in
      let closed : v.opened (k.close i s.world) ≡ rest =
        laws.close_lem i s.world ∙ ap (fd_clr i) h.same in
      let listens : rest listenfd ≡ true = ground (arith, h.listening) in
      let top : Yields (Greatest rest s.max_sd)
          (if i == s.max_sd then lower_max k rest s.max_sd else ok s.max_sd) =
        Yields-test (i == s.max_sd)
          (λ last. lower_max-Greatest rest s.max_sd listenfd (h.upper listenfd h.listening) listens)
          (λ inner. yields (record {
            member = ground (arith, h.highest);
            low = omega arith;
            upper = λ j p q. p;
          })) in
      Yields-bind top λ t g. yields (record {
        same = closed;
        listening = listens;
        highest = g.member;
        upper = λ j p. g.upper j (h.upper j (ground (arith, p))) p;
        small = omega (arith, g.low, h.small);
      })

  pub serve-IsServing :
      (fuel i : ℕ) (s : Server W)
      → laws.burst < fuel
      → IsServing k v listenfd s
      → Yields (IsServing k v listenfd) (serve k fuel listenfd i s)
  unfolding serve serve_connection
  serve-IsServing fuel i s f h =
      let little : v.traffic s.world < fuel = omega (arith, laws.traffic_bounded s.world) in
      Yields-test (i == listenfd) (λ here. accept_loop-IsServing fuel s h little)
        (λ other. Yields-bind (recv_loop-keeps fuel i s.world little) λ (close_conn, w) same.
          let h' = Watches-same h same in
          Yields-test close_conn
            (λ _. drop_connection-IsServing i (record s { world = w }) (ground arith) h')
            (λ _. yields h'))
