-- ===== src/Decoder/Mains.antt =====
-- ffmpeg_test.cpp and ffmpeg_encoder.cpp: how `main` ends.
use miscellaneous.Base.{ℕ, ◌<◌, ◌≤◌, ◌≡◌, refl, ap, arith, Bool, true, false, List, [], ◌∷◌}
use miscellaneous.Base.Run.{Yields, yields}
use miscellaneous.Base.Prog.{Prog, Yields-follow}
use miscellaneous.Base.Attempt.{event, Log, Env, by_attempt, by_pointer}
use miscellaneous.Decoder.{
  Call, open_input, copy_parameters, get_scaler, malloc_buffer, alloc_frame, alloc_picture,
  fill_picture, get_buffer, alloc_packet, add_stream, open_video, open_output_file, write_header,
  write_trailer, destroy_encoder, Streams, Exit, minus_one, minus_two, aborted, finished, open_file,
  open_decoder, decode_main, encode_main,
}
use miscellaneous.Decoder.Ledger.{Held, nothing_held, note, facts, encoded, IsFinite, Allocates}
use miscellaneous.Decoder.Loops.{Progress, progress, settled, read_loop-Counted}

-- The input and the codec are held.
abbrev decoder_held : Held
decoder_held = record nothing_held { input = true; codec = true }

abbrev decode_held : Held
decode_held = record {
  input = true;
  codec = true;
  scaler = true;
  buffer = true;
  frame = true;
  picture = true;
  packet = true;
}

abbrev pub encode_held : Held
encode_held = record decode_held { buffer = false }

-- Nothing has been read, and `h` is held.
abbrev Unread : Held → Log Call → Type 0
Unread h l = Progress false [] h 0 0 0 l

-- What is held when a call has failed before anything is read, and `main` returns -1.
abbrev pub kept : Call → Held
kept open_input = nothing_held
kept copy_parameters = decoder_held
kept _ = record nothing_held { input = true }

abbrev pub DecodeOutcome : Exit × Log Call → Type 0
DecodeOutcome (minus_one, l) =
    (c : Call) × (rest : Log Call) × (l ≡ event c false ∷ rest) × Unread (kept c) l
DecodeOutcome (minus_two, l) = Unread decoder_held l
DecodeOutcome (aborted, l) = ⊥
DecodeOutcome (finished p f, l) =
    ((facts l).held ≡ nothing_held)
    × ((facts l).sent ≡ p)
    × ((facts l).received ≡ f)
    × ((facts l).scaled ≡ f)

abbrev pub opened_encoder : List Call
opened_encoder = write_header ∷ open_output_file ∷ open_video ∷ add_stream ∷ []

abbrev pub EncodeOutcome : Exit × Log Call → Type 0
EncodeOutcome (minus_one, l) = (h : Held) × Unread h l
EncodeOutcome (minus_two, l) = Unread decoder_held l
EncodeOutcome (aborted, l) = (facts l).held ≡ encode_held
EncodeOutcome (finished p f, l) =
    ((facts l).held ≡ nothing_held)
    × ((facts l).sent ≡ p)
    × ((facts l).received ≡ f)
    × ((facts l).calls ≡ destroy_encoder ∷ write_trailer ∷ encoded f opened_encoder)

module _ (env : Env Call) (streams : Streams) where
  by_open :
      {P : Exit × Log Call → Type 0} {rest : ℕ → Prog (Log Call) Exit}
      → ((c : Call) (rest : Log Call)
          → Unread (kept c) (event c false ∷ rest)
          → P (minus_one, event c false ∷ rest))
      → ((l : Log Call) → Unread decoder_held l → P (minus_two, l))
      → ((index : ℕ) (l : Log Call) → Unread decoder_held l → Yields P (rest index l))
      → Yields P (open_decoder env streams rest [])
  unfolding open_decoder open_file
  by_open early late next = by_attempt env _ _ _ _ (yields (early _ _ (progress refl))) λ _.
      by_attempt env _ _ _ _ (yields (early _ _ (progress refl))) λ _.
        by_attempt env _ _ _ _ (yields (early _ _ (progress refl))) λ _.
          by_attempt env _ _ _ _ (yields (early _ _ (progress refl))) λ _.
            by_attempt env _ _ _ _ (yields (early _ _ (progress refl))) λ _.
              by_attempt env _ _ _ _ (yields (late _ (progress refl))) λ _. next _ _ (progress refl)

decode_ready :
    {b : Bool} {l : Log Call}
    → Unread decoder_held l
    → Progress false [] decode_held 0 0 0 (
        event alloc_packet true
        ∷ event fill_picture b
        ∷ event alloc_picture true
        ∷ event alloc_frame true
        ∷ event malloc_buffer true
        ∷ event get_scaler true
        ∷ l)
decode_ready {b} (progress s) = progress (
    ap
      (λ x. note (event alloc_packet true) (
        note (event alloc_picture true) (
          note (event alloc_frame true)
            (note (event malloc_buffer true) (note (event get_scaler true) x)))))
      s)

encode_ready :
    {b : Bool} {l : Log Call}
    → Unread decoder_held l
    → Progress true opened_encoder encode_held 0 0 0 (
        event write_header true
        ∷ event open_output_file true
        ∷ event open_video true
        ∷ event add_stream true
        ∷ event alloc_packet true
        ∷ event get_buffer b
        ∷ event alloc_picture true
        ∷ event alloc_frame true
        ∷ event get_scaler true
        ∷ l)
encode_ready {b} (progress s) = progress (
    ap
      (λ x. note (event write_header true) (
        note (event open_output_file true) (
          note (event open_video true) (
            note (event add_stream true) (
              note (event alloc_packet true) (
                note (event alloc_picture true)
                  (note (event alloc_frame true) (note (event get_scaler true) x))))))))
      s)

all_held :
    {l : Log Call}
    → Unread decoder_held l
    → record (facts l).held { scaler = true; frame = true; picture = true; packet = true }
      ≡ encode_held
all_held (progress s) =
    ap (λ x. record x.held { scaler = true; frame = true; picture = true; packet = true }) s

module _ (env : Env Call) (streams : Streams) (n m : ℕ) (finite : IsFinite env n m)
    (allocates : Allocates env) (fuel inner : ℕ) (enough : n < fuel) (enough_inner : m < inner)
    (int_n : n ≤ 2147483647) (int_m : m ≤ 2147483647) where
  -- ffmpeg_test.cpp, on a file of at most `n` packets that holds at most `m` frames, numbers of type
  -- `int`, with more fuel than that, when the allocations succeed that it does not check: no null pointer
  -- is dereferenced, no count overflows, and it ends. When it returns 0, everything that it held has been
  -- released, the counts that it prints are those of the packets that were sent to the decoder and of
  -- the frames that came from it, and every frame was scaled. A return of -2 leaves the input and the
  -- codec unreleased, with nothing read. A return of -1 follows at once on a call that failed, with
  -- nothing read, and leaves unreleased: nothing if that is the opening of the input, the input and the
  -- codec if it is the copying of the parameters, and the input if it is another.
  pub decode_main-DecodeOutcome : Yields DecodeOutcome (decode_main env streams fuel inner [])
  unfolding decode_main
  decode_main-DecodeOutcome =
      by_open env streams (λ c rest u. (c, rest, refl, u)) (λ l u. u)
        λ index l u. by_pointer env _ _ _ (allocates.scaler_lem _) (
          by_pointer env _ _ _ (allocates.buffer_lem _) (
            by_pointer env _ _ _ (allocates.frame_lem _) (
              by_pointer env _ _ _ (allocates.picture_lem _) (
                by_pointer env _ _ _ (allocates.packet_lem _) (
                  Yields-follow
                    (read_loop-Counted env n m finite int_n int_m streams inner index enough_inner
                      fuel false [] decode_held 0 0 0 _ (omega arith) (omega arith) (omega arith)
                      (omega arith) (decode_ready u))
                    λ _ l' (r, u').
                      let s = settled u' in
                      yields (
                        refl,
                        ap (λ x. x.sent) s,
                        ap (λ x. x.received) s,
                        ap (λ x. x.scaled) s,
                      ))))))

  -- `main` of ffmpeg_encoder.cpp with the methods of the encoder as calls, on a file of at most `n`
  -- packets that holds at most `m` frames, numbers of type `int`, with more fuel than that, when the
  -- allocations succeed that it does not check: no null pointer is dereferenced, no count overflows,
  -- and it ends. When it returns 0, the encoder was opened in four steps, was given the frames 1, 2, ...
  -- as they came from the decoder, all of them, and then its trailer was written, and it was destroyed
  -- last. An `assert` that fails leaves everything unreleased.
  pub encode_main-EncodeOutcome : Yields EncodeOutcome (encode_main env streams fuel inner [])
  unfolding encode_main
  encode_main-EncodeOutcome =
      by_open env streams (λ c rest u. (kept c, u)) (λ l u. u)
        λ index l u. by_pointer env _ _ _ (allocates.scaler_lem _) (
          by_pointer env _ _ _ (allocates.frame_lem _) (
            by_pointer env _ _ _ (allocates.picture_lem _) (
              by_pointer env _ _ _ (allocates.packet_lem _) (
                by_attempt env _ _ _ _ (yields (all_held u)) λ _.
                  by_attempt env _ _ _ _ (yields (all_held u)) λ _.
                    by_attempt env _ _ _ _ (yields (all_held u)) λ _.
                      by_attempt env _ _ _ _ (yields (all_held u)) λ _.
                        Yields-follow
                          (read_loop-Counted env n m finite int_n int_m streams inner index
                            enough_inner fuel true opened_encoder encode_held 0 0 0 _ (omega arith)
                            (omega arith) (omega arith) (omega arith) (encode_ready u))
                          λ _ l' (r, u').
                            let s = settled u' in
                            by_attempt env _ _ _ _ (yields (ap (λ x. x.held) s)) λ _. yields (
                              ap
                                  (λ x. record x.held {
                                    input = false;
                                    codec = false;
                                    scaler = false;
                                    frame = false;
                                    picture = false;
                                    packet = false;
                                  })
                                  s,
                              ap (λ x. x.sent) s,
                              ap (λ x. x.received) s,
                              ap (λ x. destroy_encoder ∷ write_trailer ∷ x.calls) s,
                            )))))
