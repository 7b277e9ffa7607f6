-- ===== src/Decoder/Tests.antt =====
-- ffmpeg_test.cpp and ffmpeg_encoder.cpp: a file of two packets with a frame each.
use miscellaneous.Base.{◌≡◌, refl, arith, Bool, true, false, ltb, ltb→lt, ◌&&◌, []}
use miscellaneous.Base.Run.{Yields}
use miscellaneous.Base.Attempt.{Env}
use miscellaneous.Decoder.{Call, read_frame, receive_frame, Streams, decode_main, encode_main}
use miscellaneous.Decoder.Ledger.{facts, IsFinite, Allocates}
use miscellaneous.Decoder.Mains.{
  DecodeOutcome, EncodeOutcome, decode_main-DecodeOutcome, encode_main-EncodeOutcome,
}

abbrev answer : Env Call
answer l read_frame = ltb (facts l).reads 2
answer l receive_frame = ltb (facts l).received 2 && ltb (facts l).received (facts l).sent
answer l _ = true

abbrev video : Streams
video = record { best = λ l. 0; of_packet = λ l. 0 }

both_true : (b c : Bool) → (b && c) ≡ true → b ≡ true
both_true true c eq = refl
both_true false c eq = eq

answer-IsFinite : IsFinite answer 2 2
answer-IsFinite = record {
  reads_lem = λ l eq. ltb→lt (facts l).reads 2 eq;
  receives_lem = λ l eq. ltb→lt (facts l).received 2 (both_true _ _ eq);
}

answer-Allocates : Allocates answer
answer-Allocates = record {
  scaler_lem = λ l. refl;
  buffer_lem = λ l. refl;
  frame_lem = λ l. refl;
  picture_lem = λ l. refl;
  packet_lem = λ l. refl;
}

decode_main-DecodeOutcome_example : Yields DecodeOutcome (decode_main answer video 3 3 [])
decode_main-DecodeOutcome_example =
    decode_main-DecodeOutcome answer video 2 2 answer-IsFinite answer-Allocates 3 3 (omega arith)
      (omega arith) (omega arith) (omega arith)

encode_main-EncodeOutcome_example : Yields EncodeOutcome (encode_main answer video 3 3 [])
encode_main-EncodeOutcome_example =
    encode_main-EncodeOutcome answer video 2 2 answer-IsFinite answer-Allocates 3 3 (omega arith)
      (omega arith) (omega arith) (omega arith)
