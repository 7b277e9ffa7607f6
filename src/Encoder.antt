-- ===== src/Encoder.antt =====
-- ffmpeg/ffmpeg_encoder.cpp: the class `EncoderH264`.
-- FFmpeg is a parameter. A pointer of the class is known by whether it is null; that it is
-- dereferenced when it is null is a fault. What is printed is left out.
pub mod Calls
pub mod Ledger
pub mod Stages
pub mod Session
mod Tests
use miscellaneous.Base.{
  ℕ, zero, suc, ◌-◌, Bool, true, false, not, if◌then◌else◌, Option, none, some,
}
use miscellaneous.Base.Run.{out_of_fuel}
use miscellaneous.Encoder.Calls.{
  Call, alloc_output_context, find_encoder, new_stream, alloc_context, dict_set, dict_free, io_open,
  io_close, open_codec, parameters_from_context, dump_format, avformat_write_header,
  av_write_trailer, send_frame, receive_packet, rescale_packet, write_frame, unref_packet,
  close_codec, free_context, free_format_context, Code, error, success, succeeded, ErrorCode, again,
  end_of_file, other_error, CodecId, no_codec, h264, other_codec, Env, Prog, ◌>>=◌, ◌>>◌, return,
  or_return, deref, act, when, pointer, code, options, nb_streams, stream_index,
}

pub data PixelFormat : Type 0 where
  yuv420p : PixelFormat

-- The fields of `m_codecCtx` and `m_stream` that `addStream` sets; `time_base` is a fraction.
pub record Settings : Type 0 where
  pub id : ℕ
  pub codec_id : CodecId
  pub bit_rate : ℕ
  pub width : ℕ
  pub height : ℕ
  pub time_base : ℕ × ℕ
  pub gop_size : ℕ
  pub pix_fmt : PixelFormat
  pub qmin : ℕ
  pub qmax : ℕ
  pub max_b_frames : ℕ
  pub separate_headers : Bool

-- The members; a pointer is `true` when it is not null.
pub record EncoderH264 : Type 0 where
  pub fmt_ctx : Bool
  pub codec_ctx : Bool
  pub out_fmt : Bool
  pub codec : Bool
  pub stream : Bool
  pub opt : Bool
  -- What `addStream` has set in `m_codecCtx` and `m_stream`.
  pub settings : Option Settings

-- The constructor.
abbrev pub new_encoder : EncoderH264
new_encoder = record {
  fmt_ctx = false;
  codec_ctx = false;
  out_fmt = false;
  codec = false;
  stream = false;
  opt = false;
  settings = none;
}

abbrev pub is_codec : CodecId → Bool
is_codec no_codec = false
is_codec h264 = true
is_codec other_codec = true

abbrev pub is_h264 : CodecId → Bool
is_h264 h264 = true
is_h264 _ = false

abbrev pub stream_settings : CodecId → ℕ → ℕ → ℕ → Bool → Settings
stream_settings codec_id id width height separate = record {
  id = id;
  codec_id = codec_id;
  bit_rate = 400000;
  width = width;
  height = height;
  time_base = (1, 25);
  gop_size = 12;
  pix_fmt = yuv420p;
  qmin = 10;
  qmax = 51;
  max_b_frames = 0;
  separate_headers = separate;
}

module _ (env : Env) where
  -- The result is none when the `assert` on the type of the codec aborts the program.
  unfoldable pub add_stream : ℕ → ℕ → EncoderH264 → Prog (Option (Bool × EncoderH264))
  add_stream width height e = do
    fmt_ctx ← pointer env alloc_output_context
    let e₁ = record e { fmt_ctx = fmt_ctx }
    or_return fmt_ctx (some (false, e₁)) (do
      let e₂ = record e₁ { out_fmt = true }
      or_return (is_codec env.video_codec) (some (false, e₂)) (do
        codec ← pointer env find_encoder
        let e₃ = record e₂ { codec = codec }
        or_return codec (some (false, e₃)) (do
          stream ← pointer env new_stream
          let e₄ = record e₃ { stream = stream }
          or_return stream (some (false, e₄)) (do
            streams ← nb_streams env
            codec_ctx ← pointer env alloc_context
            let e₅ = record e₄ { codec_ctx = codec_ctx }
            or_return codec_ctx (some (false, e₅)) (
                or_return env.is_video none (
                  when (is_h264 env.video_codec)
                    (act (dict_set "preset" "slow") >> act (dict_set "tune" "zerolatency"))
                    (do
                      opt ← options env
                      return (
                          some (
                            true,
                            record e₅ {
                              opt = opt;
                              settings = some (
                                  stream_settings env.video_codec (streams - 1) width height
                                    env.global_header);
                            },
                          )))))))))

  unfoldable pub open_output_file : EncoderH264 → Prog Bool
  open_output_file e = deref e.out_fmt (do
    or_return (not env.no_file) false (do
      deref e.fmt_ctx (do ret ← code env io_open; or_return (succeeded ret) false (return true))))

  unfoldable pub open_video : EncoderH264 → Prog (Bool × EncoderH264)
  open_video e = do
    ret ← code env open_codec
    opt ← options env
    let e₁ = record e { opt = opt }
    or_return (succeeded ret) (false, e₁)
        (do
          deref e.stream (do
            copied ← code env parameters_from_context
            or_return (succeeded copied) (false, e₁) (do act dump_format; return (true, e₁))))

  unfoldable pub write_header : EncoderH264 → Prog (Bool × EncoderH264)
  write_header e = do
    ret ← code env avformat_write_header
    opt ← options env
    return (succeeded ret, record e { opt = opt })

  unfoldable pub write_trailer : EncoderH264 → Prog Bool
  write_trailer e = do _ ← code env av_write_trailer; return true

  -- A packet has been received, or not; `rest` is the next round of the loop.
  pub received : EncoderH264 → Prog Bool → Code → Prog Bool
  received e rest (error again) = return false
  received e rest (error end_of_file) = return true
  received e rest (error other_error) = return false
  received e rest (success _) = deref e.codec_ctx (do
    deref e.stream (do
      act rescale_packet
      index ← stream_index env
      ret ← code env (write_frame index)
      act unref_packet
      or_return (succeeded ret) false rest))

  pub encode_loop : ℕ → EncoderH264 → Prog Bool
  encode_loop zero e = λ l. out_of_fuel
  encode_loop (suc fuel) e = code env receive_packet >>= received e (encode_loop fuel e)

  -- The frame is known by its `pts`.
  unfoldable pub encode : ℕ → EncoderH264 → ℕ → Prog Bool
  unfolding encode_loop received
  encode fuel e pts = do
    ret ← code env (send_frame pts)
    or_return (succeeded ret) false (encode_loop fuel e)

  -- The destructor.
  unfoldable pub destroy : EncoderH264 → Prog (Unit {0})
  destroy e = when e.opt (act dict_free) (do
    deref e.out_fmt (do
      when (not env.no_file) (act io_close) (do
        when e.codec_ctx (act close_codec >> act free_context)
            (do when e.fmt_ctx (act free_format_context) (return tt)))))

  -- The loop of `main` around `encode`: `n` frames that were decoded, numbered on from `pts`.
  pub encode_frames : ℕ → ℕ → ℕ → EncoderH264 → Prog (Unit {0})
  encode_frames fuel zero pts e = return tt
  encode_frames fuel (suc n) pts e =
      encode fuel e (suc pts) >>= λ _. encode_frames fuel n (suc pts) e

  -- `assert` on the result of `addStream`.
  abbrev pub asserted : Option (Bool × EncoderH264) → (EncoderH264 → Prog Bool) → Prog Bool
  asserted none rest = return false
  asserted (some (b, e)) rest = or_return b false (rest e)

  -- What `main` does with its encoder, for `n` frames. The result tells whether it gets to the end:
  -- an `assert` that fails aborts the program, and runs no destructor.
  unfoldable pub use_encoder : ℕ → ℕ → ℕ → ℕ → Prog Bool
  use_encoder fuel width height n = do
    added ← add_stream width height new_encoder
    asserted added λ e₁. (do
      (opened, e₂) ← open_video e₁
      or_return opened false (do
        file ← open_output_file e₂
        or_return file false (do
          (written, e₃) ← write_header e₂
          or_return written false (do
            encode_frames fuel n 0 e₃
            finished ← write_trailer e₃
            or_return finished false (do destroy e₃; return true)))))
