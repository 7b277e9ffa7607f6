-- ===== src/Encoder/Stages.antt =====
-- ffmpeg/ffmpeg_encoder.cpp: what each method leaves held and written.
use miscellaneous.Base.{
  ℕ, ◌≡◌, refl, sym, ap, Bool, true, false, not, Option, none, some, List, [], ◌∷◌, ◌++◌, arith,
}
use miscellaneous.Base.Run.{Yields, yields, Yields-test}
use miscellaneous.Encoder.{
  EncoderH264, Settings, new_encoder, is_codec, is_h264, add_stream, open_output_file, open_video,
  write_header, destroy,
}
use miscellaneous.Encoder.Calls.{
  event, Log, alloc_output_context, find_encoder, new_stream, alloc_context, dict_set,
  avformat_write_header, open_codec, parameters_from_context, io_open, succeeded, Env,
}
use miscellaneous.Encoder.Ledger.{holding, held, Part, header, parts, numbered}

-- All that `addStream` allocates is there.
pub data IsReady : EncoderH264 → Type 0 where
  is_ready :
      (codec opt : Bool) (settings : Option Settings)
      → IsReady (record {
        fmt_ctx = true;
        codec_ctx = true;
        out_fmt = true;
        codec = codec;
        stream = true;
        opt = opt;
        settings = settings;
      })

-- The encoder is ready, `files` output files are open, and `ps` is written.
abbrev pub IsAt : ℕ → List Part → EncoderH264 → Log → Type 0
IsAt files ps e l = IsReady e × (held l ≡ holding 1 1 files) × (parts l ≡ ps)

-- A method that fails says so, and nothing has been written; else it leads to the stage.
abbrev pub OnSuccess : (EncoderH264 → Log → Type 0) → (Bool × EncoderH264) × Log → Type 0
OnSuccess P ((true, e), l) = P e l
OnSuccess P ((false, e), l) = parts l ≡ []

abbrev pub OnAdded : Option (Bool × EncoderH264) × Log → Type 0
OnAdded (none, l) = parts l ≡ []
OnAdded (some x, l) = OnSuccess (IsAt 0 []) (x, l)

added-IsAt :
    (made found streamed allocated : Bool) (codec opt : Bool) (settings : Option Settings)
    (es : Log)
    → made ≡ true
    → streamed ≡ true
    → allocated ≡ true
    → held (
        es
        ++ event alloc_context true
          ∷ event new_stream true
          ∷ event find_encoder found
          ∷ event alloc_output_context true
          ∷ [])
      ≡ holding 1 1 0
    → parts (
        es
        ++ event alloc_context true
          ∷ event new_stream true
          ∷ event find_encoder found
          ∷ event alloc_output_context true
          ∷ [])
      ≡ []
    → IsAt 0 []
        (record {
          fmt_ctx = made;
          codec_ctx = allocated;
          out_fmt = true;
          codec = codec;
          stream = streamed;
          opt = opt;
          settings = settings;
        })
        (es
          ++ event alloc_context allocated
            ∷ event new_stream streamed
            ∷ event find_encoder found
            ∷ event alloc_output_context made
            ∷ [])
added-IsAt true found true true codec opt settings es p q r h g =
    (is_ready codec opt settings, h, g)
added-IsAt false found streamed allocated codec opt settings es p q r h g = grind arith
added-IsAt true found false allocated codec opt settings es p q r h g = grind arith
added-IsAt true found true false codec opt settings es p q r h g = grind arith

not-true : (b : Bool) → not b ≡ true → b ≡ false
not-true true h = sym h
not-true false h = refl

written-IsAt :
    (b k o : Bool) (s : Option Settings) (l : Log)
    → held l ≡ holding 1 1 1
    → parts l ≡ []
    → OnSuccess (IsAt 1 (numbered [])) (
      (
        b,
        record {
          fmt_ctx = true;
          codec_ctx = true;
          out_fmt = true;
          codec = k;
          stream = true;
          opt = o;
          settings = s;
        },
      ),
      event avformat_write_header b ∷ l,
    )
written-IsAt true k o s l h w = (is_ready k o s, h, ap (λ ps. header ∷ ps) w)
written-IsAt false k o s l h w = w

module _ (env : Env) where
  pub add_stream-IsAt :
      (width height : ℕ) → Yields OnAdded (add_stream env width height new_encoder [])
  unfolding add_stream
  add_stream-IsAt width height =
      let made = env.pointer [] alloc_output_context in
      let l₁ = event alloc_output_context made ∷ [] in
      let found = env.pointer l₁ find_encoder in
      let l₂ = event find_encoder found ∷ l₁ in
      let streamed = env.pointer l₂ new_stream in
      let l₃ = event new_stream streamed ∷ l₂ in
      let allocated = env.pointer l₃ alloc_context in
      let tuned =
        event (dict_set "tune" "zerolatency") true ∷ event (dict_set "preset" "slow") true ∷ [] in
      Yields-test made
        (λ p.
          Yields-test (is_codec env.video_codec)
            (λ _.
              Yields-test found
                (λ _.
                  Yields-test streamed
                    (λ q.
                      Yields-test allocated
                        (λ r.
                          Yields-test env.is_video
                            (λ _.
                              Yields-test (is_h264 env.video_codec)
                                (λ _. yields (
                                  added-IsAt made found streamed allocated _ _ _ tuned p q r refl
                                    refl))
                                (λ _. yields (
                                  added-IsAt made found streamed allocated _ _ _ [] p q r refl
                                    refl)))
                            (λ _. yields refl))
                        (λ _. yields refl))
                    (λ _. yields refl))
                (λ _. yields refl))
            (λ _. yields refl))
        (λ _. yields refl)

  pub open_video-IsAt :
      (e : EncoderH264) (l : Log)
      → IsAt 0 [] e l
      → Yields (OnSuccess (IsAt 0 [])) (open_video env e l)
  unfolding open_video
  open_video-IsAt _ l (is_ready k o s, holds, wrote) =
      let opened = succeeded (env.code l open_codec) in
      let l₁ = event open_codec opened ∷ l in
      let copied = succeeded (env.code l₁ parameters_from_context) in
      Yields-test opened
        (λ _. Yields-test copied (λ _. yields (is_ready k _ s, holds, wrote)) (λ _. yields wrote))
        (λ _. yields wrote)

  -- A file is opened, so the format needs one.
  abbrev pub HasFile : EncoderH264 → Log → Type 0
  HasFile e l = IsAt 1 [] e l × (env.no_file ≡ false)

  pub open_output_file-HasFile :
      (e : EncoderH264) (l : Log)
      → IsAt 0 [] e l
      → Yields (λ (b, l'). OnSuccess HasFile ((b, e), l')) (open_output_file env e l)
  unfolding open_output_file
  open_output_file-HasFile _ l (is_ready k o s, holds, wrote) =
      let opened = succeeded (env.code l io_open) in
      Yields-test (not env.no_file)
        (λ needed.
          Yields-test opened
            (λ p.
              yields ((is_ready k o s, rw p (rw holds refl), wrote), not-true env.no_file needed))
            (λ _. yields wrote))
        (λ _. yields wrote)

  pub write_header-IsAt :
      (e : EncoderH264) (l : Log)
      → IsAt 1 [] e l
      → Yields (OnSuccess (IsAt 1 (numbered []))) (write_header env e l)
  unfolding write_header
  write_header-IsAt _ l (is_ready k o s, holds, wrote) =
      yields (written-IsAt (succeeded (env.code l avformat_write_header)) k _ s l holds wrote)

  pub destroy-releases :
      (ps : List Part) (e : EncoderH264) (l : Log)
      → env.no_file ≡ false
      → IsAt 1 ps e l
      → Yields (λ (_, l'). (held l' ≡ holding 0 0 0) × (parts l' ≡ ps)) (destroy env e l)
  unfolding destroy
  destroy-releases ps _ l file (is_ready k o s, holds, wrote) =
      Yields-test o (λ _. rw file (yields (rw holds refl, wrote)))
        (λ _. rw file (yields (rw holds refl, wrote)))
