-- ===== src/Decoder/Ledger.antt =====
-- What a log of FFmpeg's calls says: the counts, what is held, and the calls of the encoder.
use miscellaneous.Base.{ℕ, zero, suc, Bool, true, false, ◌<◌, ◌≡◌, List, [], ◌∷◌}
use miscellaneous.Base.Attempt.{Event, event, Log, Env}
use miscellaneous.Decoder.{
  Call, open_input, alloc_context, get_scaler, malloc_buffer, alloc_frame, alloc_picture,
  alloc_packet, read_frame, send_packet, receive_frame, scale, free_packet, free_picture,
  free_frame, free_scaler, free_context, close_input, free_buffer, add_stream, open_video,
  open_output_file, write_header, write_trailer, destroy_encoder, encode,
}

-- Which resources are held.
pub record Held : Type 0 where
  pub input : Bool
  pub codec : Bool
  pub scaler : Bool
  pub buffer : Bool
  pub frame : Bool
  pub picture : Bool
  pub packet : Bool

abbrev pub nothing_held : Held
nothing_held = record {
  input = false;
  codec = false;
  scaler = false;
  buffer = false;
  frame = false;
  picture = false;
  packet = false;
}

-- What a log says: how many packets were read and sent to the decoder, how many frames were received
-- and scaled, the calls of the encoder, the last first, and what is held.
pub record Facts : Type 0 where
  pub reads : ℕ
  pub sent : ℕ
  pub received : ℕ
  pub scaled : ℕ
  pub calls : List Call
  pub held : Held

abbrev pub note : Event Call → Facts → Facts
note (event read_frame true) f = record f { reads = suc f.reads }
note (event send_packet _) f = record f { sent = suc f.sent }
note (event receive_frame true) f = record f { received = suc f.received }
note (event scale _) f = record f { scaled = suc f.scaled }
note (event open_input true) f = record f { held = record f.held { input = true } }
note (event close_input _) f = record f { held = record f.held { input = false } }
note (event alloc_context true) f = record f { held = record f.held { codec = true } }
note (event free_context _) f = record f { held = record f.held { codec = false } }
note (event get_scaler true) f = record f { held = record f.held { scaler = true } }
note (event free_scaler _) f = record f { held = record f.held { scaler = false } }
note (event malloc_buffer true) f = record f { held = record f.held { buffer = true } }
note (event free_buffer _) f = record f { held = record f.held { buffer = false } }
note (event alloc_frame true) f = record f { held = record f.held { frame = true } }
note (event free_frame _) f = record f { held = record f.held { frame = false } }
note (event alloc_picture true) f = record f { held = record f.held { picture = true } }
note (event free_picture _) f = record f { held = record f.held { picture = false } }
note (event alloc_packet true) f = record f { held = record f.held { packet = true } }
note (event free_packet _) f = record f { held = record f.held { packet = false } }
note (event add_stream _) f = record f { calls = add_stream ∷ f.calls }
note (event open_video _) f = record f { calls = open_video ∷ f.calls }
note (event open_output_file _) f = record f { calls = open_output_file ∷ f.calls }
note (event write_header _) f = record f { calls = write_header ∷ f.calls }
note (event write_trailer _) f = record f { calls = write_trailer ∷ f.calls }
note (event destroy_encoder _) f = record f { calls = destroy_encoder ∷ f.calls }
note (event (encode n) _) f = record f { calls = encode n ∷ f.calls }
note _ f = f

abbrev pub facts : Log Call → Facts
facts [] = record { reads = 0; sent = 0; received = 0; scaled = 0; calls = []; held = nothing_held }
facts (e ∷ l) = note e (facts l)

-- The frames 1 to `n`, after the calls `cs`.
abbrev pub encoded : ℕ → List Call → List Call
encoded zero cs = cs
encoded (suc n) cs = encode (suc n) ∷ encoded n cs

-- A file with at most `packets` packets, whose decoder gives at most `frames` frames.
pub record IsFinite (env : Env Call) (packets frames : ℕ) : Type 0 where
  pub reads_lem : (l : Log Call) → env l read_frame ≡ true → (facts l).reads < packets
  pub receives_lem : (l : Log Call) → env l receive_frame ≡ true → (facts l).received < frames

-- The allocations that the code does not check succeed.
pub record Allocates (env : Env Call) : Type 0 where
  pub scaler_lem : (l : Log Call) → env l get_scaler ≡ true
  pub buffer_lem : (l : Log Call) → env l malloc_buffer ≡ true
  pub frame_lem : (l : Log Call) → env l alloc_frame ≡ true
  pub picture_lem : (l : Log Call) → env l alloc_picture ≡ true
  pub packet_lem : (l : Log Call) → env l alloc_packet ≡ true
