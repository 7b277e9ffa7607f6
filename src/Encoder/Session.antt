-- ===== src/Encoder/Session.antt =====
-- ffmpeg/ffmpeg_encoder.cpp: the loop of `encode` ends, and the life of an encoder in `main`.
use miscellaneous.Base.{
  ℕ, zero, suc, ◌+◌, ◌<◌, ◌≤◌, ◌≡◌, refl, ap, ◌∙◌, Bool, true, false, if◌then◌else◌, Option, none,
  some, List, [], ◌∷◌, length, arith,
}
use miscellaneous.Base.Run.{Run, ok, Yields, yields, Yields-test, Yields-weaken}
use miscellaneous.Base.Prog.{Yields-follow}
use miscellaneous.Encoder.{
  EncoderH264, asserted, received, encode_loop, encode, encode_frames, use_encoder, write_trailer,
}
use miscellaneous.Encoder.Calls.{
  event, Log, receive_packet, rescale_packet, write_frame, unref_packet, send_frame,
  av_write_trailer, Code, error, success, succeeded, again, end_of_file, other_error, Env, Prog,
}
use miscellaneous.Encoder.Ledger.{holding, held, Part, ask, trailer, frame, parts, numbered}
use miscellaneous.Encoder.Stages.{
  IsReady, is_ready, IsAt, OnSuccess, OnAdded, HasFile, add_stream-IsAt, open_video-IsAt,
  open_output_file-HasFile, write_header-IsAt, destroy-releases,
}

-- The codec has `left l` packets to give after the calls of `l`, and at most `burst`: one that it
-- gives is gone, and the calls that write and drop a packet bring no new one.
pub record IsFinite (env : Env) : Type 0 where
  pub left : Log → ℕ
  pub burst : ℕ
  pub left_bounded : (l : Log) → left l ≤ burst
  pub receive_lem :
      (l : Log) (n : ℕ)
      → env.code l receive_packet ≡ success n
      → left (event receive_packet true ∷ l) < left l
  pub rescale_lem : (l : Log) → left (event rescale_packet true ∷ l) ≤ left l
  pub write_lem : (l : Log) (i : ℕ) (b : Bool) → left (event (write_frame i) b ∷ l) ≤ left l
  pub unref_lem : (l : Log) → left (event unref_packet true ∷ l) ≤ left l

-- How the life of the encoder ends, for `n` frames: with nothing held after a complete output, or
-- aborted with nothing written.
abbrev pub IsComplete : ℕ → Bool × Log → Type 0
IsComplete n (true, l) =
    (held l ≡ holding 0 0 0)
    × (b : Bool) × (bs : List Bool) × (length bs ≡ n)
    × (parts l ≡ trailer b ∷ numbered bs)
IsComplete n (false, l) = parts l ≡ []

-- An `assert` on the result of a method.
assert_stage :
    (n : ℕ) (P : EncoderH264 → Log → Type 0) (e : EncoderH264) (l : Log) (b : Bool)
    → OnSuccess P ((b, e), l)
    → {m : Run (Bool × Log)} → (P e l → Yields (IsComplete n) m)
    → Yields (IsComplete n) (if b then m else ok (false, l))
assert_stage n P e l true h k = k h
assert_stage n P e l false h k = yields h

added_stage :
    (env : Env) (n : ℕ) (x : Option (Bool × EncoderH264)) (l : Log)
    → OnAdded (x, l)
    → (rest : EncoderH264 → Prog Bool)
    → ((e : EncoderH264) → IsAt 0 [] e l → Yields (IsComplete n) (rest e l))
    → Yields (IsComplete n) (asserted env x rest l)
added_stage env n none l h rest k = yields h
added_stage env n (some (b, e)) l h rest k = assert_stage n (IsAt 0 []) e l b h (k e)

module _ (env : Env) (finite : IsFinite env) where
  -- The same is held as before, and nothing is added behind the frame that was taken.
  abbrev Same : Log → List Part → Bool × Log → Type 0
  Same l ps (_, l') = (held l' ≡ held l) × (parts l' ≡ ps)

  module _ (pts : ℕ) (before : List Part) where
    abbrev taken : List Part
    taken = frame pts true ∷ before

    received-Same :
        (n : ℕ) (e : EncoderH264) (l : Log)
        → ((l' : Log)
            → parts l' ≡ taken
            → finite.left l' < n
            → Yields (Same l' taken) (encode_loop env n e l'))
        → IsReady e
        → parts l ≡ taken
        → finite.left l < suc n
        → (x : Code) → env.code l receive_packet ≡ x
        → Yields
            (Same l taken)
            (received env e (encode_loop env n e) x (event receive_packet (succeeded x) ∷ l))
    unfolding received
    received-Same n e l ih r w f (error again) eq = yields (refl, ap ask w)
    received-Same n e l ih r w f (error end_of_file) eq = yields (refl, ap ask w)
    received-Same n e l ih r w f (error other_error) eq = yields (refl, ap ask w)
    received-Same n _ l ih (is_ready k o s) w f (success x) eq =
        let l₁ = event receive_packet true ∷ l in
        let l₂ = event rescale_packet true ∷ l₁ in
        let i = env.stream_index l₂ in
        let written = succeeded (env.code l₂ (write_frame i)) in
        let l₃ = event (write_frame i) written ∷ l₂ in
        let fewer = finite.receive_lem l x eq in
        Yields-test written
          (λ _. ih (event unref_packet true ∷ l₃) (ap ask w) (
            omega (
              arith,
              fewer,
              finite.rescale_lem l₁,
              finite.write_lem l₂ i written,
              finite.unref_lem l₃,
            )))
          (λ _. yields (refl, ap ask w))

    encode_loop-Same :
        (fuel : ℕ) (e : EncoderH264) (l : Log)
        → IsReady e
        → parts l ≡ taken
        → finite.left l < fuel
        → Yields (Same l taken) (encode_loop env fuel e l)
    unfolding encode_loop
    encode_loop-Same zero e l r w f = elim f [ ]
    encode_loop-Same (suc fuel) e l r w f =
        received-Same fuel e l (λ l' w' f'. encode_loop-Same fuel e l' r w' f') r w f
          (env.code l receive_packet) refl

  -- Encoding a frame hands it over and leaves no packet that it was given for it.
  encode-IsAt :
      (fuel : ℕ) (e : EncoderH264) (pts : ℕ) (ps : List Part) (l : Log)
      → finite.burst < fuel
      → IsAt 1 ps e l
      → Yields (λ (_, l'). (b : Bool) × IsAt 1 (frame pts b ∷ ps) e l') (encode env fuel e pts l)
  unfolding encode
  encode-IsAt fuel e pts ps l f (r, holds, wrote) =
      let sent = succeeded (env.code l (send_frame pts)) in
      let l₁ = event (send_frame pts) sent ∷ l in
      Yields-test sent
        (λ took.
          let w : parts l₁ ≡ frame pts true ∷ ps =
            ap (λ b. frame pts b ∷ parts l) took ∙ ap (λ x. frame pts true ∷ x) wrote in
          Yields-weaken (λ _ (p, q). (true, (r, p ∙ holds, q)))
            (encode_loop-Same pts ps fuel e l₁ r w (omega (arith, finite.left_bounded l₁))))
        (λ _. yields (sent, (r, holds, ap (λ x. frame pts sent ∷ x) wrote)))

  -- The frames have been handed over, each with an answer.
  abbrev Handed : ℕ → EncoderH264 → Log → Type 0
  Handed m e l = (bs : List Bool) × (length bs ≡ m) × IsAt 1 (numbered bs) e l

  encode_frames-Handed :
      (fuel n m : ℕ) (bs : List Bool) (e : EncoderH264) (l : Log)
      → finite.burst < fuel
      → n + length bs ≡ m
      → IsAt 1 (numbered bs) e l
      → Yields (λ (_, l'). Handed m e l') (encode_frames env fuel n (length bs) e l)
  unfolding encode_frames
  encode_frames-Handed fuel zero m bs e l f eq h = yields (bs, omega (arith, eq), h)
  encode_frames-Handed fuel (suc n) m bs e l f eq h =
      Yields-follow (encode-IsAt fuel e (suc (length bs)) (numbered bs) l f h)
        λ _ l' (b, h'). encode_frames-Handed fuel n m (b ∷ bs) e l' f (omega (arith, eq)) h'

  -- The encoder as `main` uses it, for `n` frames, when the codec has finitely many packets to give
  -- between two frames and the fuel is above their number: no null pointer is dereferenced and the
  -- loop of `encode` ends, whatever the calls of FFmpeg that the class makes answer. When an `assert`
  -- aborts the program, no header has been written and no frame handed over. Else the header was
  -- written, then the frames 1 to `n` were handed to the codec in order, each taken or refused, and no
  -- packet was asked for before a frame or after one that was refused; then the writing of the trailer
  -- was tried, which may have failed; both contexts, the output file and every packet have been
  -- released, and nothing has been released that was not held.
  pub use_encoder-IsComplete :
      (fuel width height n : ℕ)
      → finite.burst < fuel
      → Yields (IsComplete n) (use_encoder env fuel width height n [])
  unfolding use_encoder write_trailer
  use_encoder-IsComplete fuel width height n f =
      Yields-follow (add_stream-IsAt env width height) λ added l₁ h₁.
        added_stage env n added l₁ h₁ _ λ e₁ s₁.
          Yields-follow (open_video-IsAt env e₁ l₁ s₁) λ (opened, e₂) l₂ h₂.
            assert_stage n (IsAt 0 []) e₂ l₂ opened h₂ λ s₂.
              Yields-follow (open_output_file-HasFile env e₂ l₂ s₂) λ file l₃ h₃.
                assert_stage n (HasFile env) e₂ l₃ file h₃ λ (s₃, no_file).
                  Yields-follow (write_header-IsAt env e₂ l₃ s₃) λ (written, e₃) l₄ h₄.
                    assert_stage n (IsAt 1 (numbered [])) e₃ l₄ written h₄ λ s₄.
                      Yields-follow (encode_frames-Handed fuel n n [] e₃ l₄ f (omega arith) s₄)
                        λ _ l₅ (bs, eq, (r, holds, wrote)).
                          let done = succeeded (env.code l₅ av_write_trailer) in
                          Yields-follow
                            (destroy-releases env (trailer done ∷ numbered bs) e₃
                              (event av_write_trailer done ∷ l₅) no_file
                              (r, holds, ap (λ x. trailer done ∷ x) wrote))
                            λ _ l₆ (freed, all). yields (freed, done, bs, eq, all)
