-- ===== src/Decoder/Loops.antt =====
-- ffmpeg_test.cpp and ffmpeg_encoder.cpp: the loops that read packets and receive frames.
use miscellaneous.Base.{
  ℕ, zero, suc, ◌+◌, ◌<◌, ◌≤◌, ◌≡◌, ap, arith, Bool, true, false, ltb, ◌==◌, if◌then◌else◌, List,
  ◌∷◌,
}
use miscellaneous.Base.Run.{Run, fault, Yields, yields, Yields-test}
use miscellaneous.Base.Prog.{Yields-follow}
use miscellaneous.Base.Attempt.{event, Log, Env, by_attempt}
use miscellaneous.Decoder.{
  Call, read_frame, send_packet, receive_frame, scale, unref_packet, encode, Streams, receive_loop,
  read_loop,
}
use miscellaneous.Decoder.Ledger.{Held, Facts, note, facts, encoded, IsFinite}

abbrev pub calls_after : Bool → ℕ → List Call → List Call
calls_after true f cs = encoded f cs
calls_after false f cs = cs

-- `r` packets have been read, of which `p` have been sent to the decoder, which gave `f` frames; `cs`
-- are the calls of the encoder before.
abbrev pub counts : Bool → List Call → Held → ℕ → ℕ → ℕ → Facts
counts encoding cs h r p f = record {
  reads = r;
  sent = p;
  received = f;
  scaled = f;
  calls = calls_after encoding f cs;
  held = h;
}

pub data Progress (encoding : Bool) (cs : List Call) (h : Held) (r p f : ℕ) (l : Log Call)
    : Type 0 where
  progress : facts l ≡ counts encoding cs h r p f → Progress encoding cs h r p f l

pub settled :
    {encoding : Bool} {cs : List Call} {h : Held} {r p f : ℕ} {l : Log Call}
    → Progress encoding cs h r p f l
    → facts l ≡ counts encoding cs h r p f
settled (progress s) = s

-- `++n` does not overflow.
int_next-Yields :
    {A : Type 0} {P : A → Type 0} (n : ℕ) {m : Run A}
    → n < 2147483647
    → Yields P m
    → Yields P (if ltb n 2147483647 then m else fault)
int_next-Yields n h y = Yields-test (ltb n 2147483647) (λ _. y) (λ e. absurd (ground arith))

module _ {encoding : Bool} {cs : List Call} {h : Held} {r p f : ℕ} {l : Log Call} where
  no_frame :
      Progress encoding cs h r p f l → Progress encoding cs h r p f (event receive_frame false ∷ l)
  no_frame (progress s) = progress s

  no_packet :
      Progress encoding cs h r p f l → Progress encoding cs h r p f (event read_frame false ∷ l)
  no_packet (progress s) = progress s

  read_now : Progress encoding cs h r p f l → (facts l).reads ≡ r
  read_now (progress s) = ap (λ x. x.reads) s

  received_now : Progress encoding cs h r p f l → (facts l).received ≡ f
  received_now (progress s) = ap (λ x. x.received) s

  packet_read :
      Progress encoding cs h r p f l
      → Progress encoding cs h (suc r) p f (event read_frame true ∷ l)
  packet_read (progress s) = progress (ap (note (event read_frame true)) s)

  packet_sent :
      (b : Bool)
      → Progress encoding cs h r p f l
      → Progress encoding cs h r (suc p) f (event send_packet b ∷ l)
  packet_sent b (progress s) = progress (ap (note (event send_packet b)) s)

  unreferenced :
      {b : Bool}
      → Progress encoding cs h r p f l
      → Progress encoding cs h r p f (event unref_packet b ∷ l)
  unreferenced (progress s) = progress s

module _ {cs : List Call} {h : Held} {r p f : ℕ} {l : Log Call} where
  frame_scaled :
      {b : Bool}
      → Progress false cs h r p f l
      → Progress false cs h r p (suc f) (event scale b ∷ event receive_frame true ∷ l)
  frame_scaled {b} (progress s) =
      progress (ap (λ x. note (event scale b) (note (event receive_frame true) x)) s)

  frame_encoded :
      {b b' : Bool}
      → Progress true cs h r p f l
      → Progress true cs h r p
          (suc f)
          (event (encode (suc f)) b' ∷ event scale b ∷ event receive_frame true ∷ l)
  frame_encoded {b} {b'} (progress s) = progress (
      ap
        (λ x.
          note (event (encode (suc f)) b')
            (note (event scale b) (note (event receive_frame true) x)))
        s)

module _ (env : Env Call) (n m : ℕ) (finite : IsFinite env n m) (int_counts : n ≤ 2147483647)
    (int_counts' : m ≤ 2147483647) where
  frame_bound :
      {encoding : Bool} {cs : List Call} {h : Held} {r p f : ℕ} (l : Log Call)
      → Progress encoding cs h r p f l
      → env l receive_frame ≡ true
      → f < m
  frame_bound l s eq = omega (arith, received_now s, finite.receives_lem l eq)

  packet_bound :
      {encoding : Bool} {cs : List Call} {h : Held} {r p f : ℕ} (l : Log Call)
      → Progress encoding cs h r p f l
      → env l read_frame ≡ true
      → r < n
  packet_bound l s eq = omega (arith, read_now s, finite.reads_lem l eq)

  receive_loop-Progress :
      (fuel : ℕ) (encoding : Bool) {cs : List Call} {h : Held} {r p : ℕ} (f : ℕ) (l : Log Call)
      → m < f + fuel
      → f ≤ m
      → Progress encoding cs h r p f l
      → Yields
          (λ (f', l'). (f' ≤ m) × Progress encoding cs h r p f' l')
          (receive_loop env fuel encoding true f l)
  unfolding receive_loop
  receive_loop-Progress zero encoding f l enough small s = absurd (omega arith)
  receive_loop-Progress (suc fuel) true f l enough small s =
      by_attempt env _ _ _ _ (yields (small, no_frame s)) λ eq.
        let below = frame_bound l s eq in
        int_next-Yields f (omega arith)
          (receive_loop-Progress fuel true (suc f) _ (omega arith) (omega arith) (frame_encoded s))
  receive_loop-Progress (suc fuel) false f l enough small s =
      by_attempt env _ _ _ _ (yields (small, no_frame s)) λ eq.
        let below = frame_bound l s eq in
        int_next-Yields f (omega arith)
          (receive_loop-Progress fuel false (suc f) _ (omega arith) (omega arith) (frame_scaled s))

  -- At the end, `p` packets and `f` frames have been counted.
  abbrev pub Counted : Bool → List Call → Held → (ℕ × ℕ) × Log Call → Type 0
  Counted encoding cs h ((p, f), l) = (r : ℕ) × Progress encoding cs h r p f l

  module _ (streams : Streams) (inner index : ℕ) (enough_inner : m < inner) where
    pub read_loop-Counted :
        (fuel : ℕ) (encoding : Bool) (cs : List Call) (h : Held) (r p f : ℕ) (l : Log Call)
        → n < r + fuel
        → r ≤ n
        → p ≤ r
        → f ≤ m
        → Progress encoding cs h r p f l
        → Yields
            (Counted encoding cs h)
            (read_loop env streams fuel inner encoding index true true p f l)
    unfolding read_loop
    read_loop-Counted zero encoding cs h r p f l enough small few small' s = absurd (omega arith)
    read_loop-Counted (suc fuel) encoding cs h r p f l enough small few small' s =
        by_attempt env _ _ _ _ (yields (r, no_packet s)) λ eq.
          let below = packet_bound l s eq in
          Yields-test (streams.of_packet (event read_frame true ∷ l) == index)
            (λ _. int_next-Yields p (omega arith) (
              by_attempt env _ _ _ _ (yields (suc r, packet_sent false (packet_read s))) λ _.
                Yields-follow
                  (receive_loop-Progress inner encoding f _ (omega arith) small'
                    (packet_sent true (packet_read s)))
                  λ f' l' (small'', s').
                    read_loop-Counted fuel encoding cs h (suc r) (suc p) f' _ (omega arith)
                      (omega arith) (omega arith) small'' (unreferenced s')))
            (λ _.
              read_loop-Counted fuel encoding cs h (suc r) p f _ (omega arith) (omega arith)
                (omega arith) small' (unreferenced (packet_read s)))
