-- ===== src/Encoder/Tests.antt =====
-- ffmpeg/ffmpeg_encoder.cpp: an FFmpeg in which every call succeeds and each frame gives one packet.
use miscellaneous.Base.{ℕ, ◌≡◌, ◌<◌, ◌≤◌, refl, arith, Bool, true, false, [], ◌∷◌}
use miscellaneous.Base.Run.{Yields, yields}
use miscellaneous.Encoder.{
  add_stream, open_video, open_output_file, write_header, write_trailer, encode, encode_loop,
  received, encode_frames, destroy, use_encoder,
}
use miscellaneous.Encoder.Calls.{
  Call, event, Log, receive_packet, send_frame, Code, error, success, again, h264, Env,
}
use miscellaneous.Encoder.Session.{IsFinite, IsComplete, use_encoder-IsComplete}

-- A packet is there after a frame has been sent, until it is received.
abbrev waiting : Log → Bool
waiting [] = false
waiting (event (send_frame _) _ ∷ l) = true
waiting (event receive_packet _ ∷ l) = false
waiting (_ ∷ l) = waiting l

abbrev count : Bool → ℕ
count true = 1
count false = 0

abbrev packet : Bool → Code
packet true = success 0
packet false = error again

abbrev answer : Log → Call → Code
answer l receive_packet = packet (waiting l)
answer l _ = success 0

abbrev working : Env
working = record {
  pointer = λ l c. true;
  code = answer;
  options = λ l. true;
  nb_streams = λ l. 1;
  stream_index = λ l. 0;
  video_codec = h264;
  is_video = true;
  no_file = false;
  global_header = true;
}

count_bounded : (b : Bool) → count b ≤ 1
count_bounded true = omega arith
count_bounded false = omega arith

packet_waits : (b : Bool) (m : ℕ) → packet b ≡ success m → 0 < count b
packet_waits true m eq = omega arith
packet_waits false m eq = grind arith

abbrev one_packet : IsFinite working
one_packet = record {
  left = λ l. count (waiting l);
  burst = 1;
  left_bounded = λ l. count_bounded (waiting l);
  receive_lem = λ l n eq. packet_waits (waiting l) n eq;
  rescale_lem = λ l. omega arith;
  write_lem = λ l i b. omega arith;
  unref_lem = λ l. omega arith;
}

use_encoder-IsComplete_example : Yields (IsComplete 3) (use_encoder working 2 640 480 3 [])
use_encoder-IsComplete_example = use_encoder-IsComplete working one_packet 2 640 480 3 (omega arith)

use_encoder_ends : Yields (λ (b, l). b ≡ true) (use_encoder working 2 640 480 3 [])
unfolding use_encoder add_stream open_video open_output_file write_header write_trailer encode
    encode_loop received encode_frames destroy
use_encoder_ends = yields refl
