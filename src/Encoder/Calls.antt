-- ===== src/Encoder/Calls.antt =====
-- The calls that the class `EncoderH264` of ffmpeg/ffmpeg_encoder.cpp makes of FFmpeg, and programs
-- that make them: each call is written to a log, and FFmpeg's answer to it may depend on all that
-- the log holds.
use Prim.Native.String.{String}
use miscellaneous.Base.{ℕ, Bool, true, false, List, ◌∷◌}
use miscellaneous.Base.Run.{Run, ok}
pub use miscellaneous.Base.Prog.{follow, ◌>>=◌, ◌>>◌, return, or_return, deref, when}

pub data Call : Type 0 where
  alloc_output_context find_encoder new_stream alloc_context : Call
  dict_set : String → String → Call
  dict_free : Call
  io_open io_close : Call
  open_codec parameters_from_context dump_format : Call
  avformat_write_header av_write_trailer : Call
  send_frame : ℕ → Call
  receive_packet rescale_packet : Call
  write_frame : ℕ → Call
  unref_packet close_codec free_context free_format_context : Call

-- A call, and whether it succeeded: its result is a pointer that is not null, or not negative.
pub data Event : Type 0 where
  event : Call → Bool → Event

-- The last call first.
abbrev pub Log : Type 0
Log = List Event

pub data ErrorCode : Type 0 where
  again end_of_file other_error : ErrorCode

pub data Code : Type 0 where
  error : ErrorCode → Code
  success : ℕ → Code

abbrev pub succeeded : Code → Bool
succeeded (error _) = false
succeeded (success _) = true

pub data CodecId : Type 0 where
  no_codec h264 other_codec : CodecId

-- FFmpeg and the output format that it finds for the file name.
pub record Env : Type 0 where
  pub pointer : Log → Call → Bool
  pub code : Log → Call → Code
  -- What is left in the dictionary `m_opt` is not null.
  pub options : Log → Bool
  pub nb_streams : Log → ℕ
  pub stream_index : Log → ℕ
  pub video_codec : CodecId
  -- The codec that is found is one for video.
  pub is_video : Bool
  pub no_file : Bool
  pub global_header : Bool

abbrev pub Prog : Type 0 → Type 0
Prog A = Log → Run (A × Log)

abbrev pub act : Call → Prog (Unit {0})
act c l = ok (tt, event c true ∷ l)

module _ (env : Env) where
  abbrev pub pointer : Call → Prog Bool
  pointer c l = ok (env.pointer l c, event c (env.pointer l c) ∷ l)

  abbrev pub code : Call → Prog Code
  code c l = ok (env.code l c, event c (succeeded (env.code l c)) ∷ l)

  abbrev pub options : Prog Bool
  options l = ok (env.options l, l)

  abbrev pub nb_streams : Prog ℕ
  nb_streams l = ok (env.nb_streams l, l)

  abbrev pub stream_index : Prog ℕ
  stream_index l = ok (env.stream_index l, l)
