-- ===== src/Decoder.antt =====
-- ffmpeg/ffmpeg_test.cpp, which decodes the video of a file, and `main` of ffmpeg/ffmpeg_encoder.cpp,
-- which does so too and gives the frames to an encoder; that is known here by the calls of its methods
-- only. FFmpeg is a parameter. A pointer is known by whether it is null.
mod Ledger
mod Loops
mod Mains
mod Tests
use miscellaneous.Base.{ℕ, zero, suc, ◌&&◌, Bool, true, false, if◌then◌else◌, ◌==◌, ltb, List}
use miscellaneous.Base.Run.{fault}
use miscellaneous.Base.Prog.{Prog, ◌>>=◌, return, deref, when}
use miscellaneous.Base.Attempt.{Log, Env, exhausted, attempt, pointer, ignore}

pub data Call : Type 0 where
  open_input find_stream_info dump_format find_best_stream find_decoder : Call
  alloc_context copy_parameters open_codec get_scaler malloc_buffer : Call
  alloc_frame alloc_picture fill_picture get_buffer alloc_packet : Call
  read_frame send_packet receive_frame scale unref_packet : Call
  free_packet free_picture free_frame free_scaler close_codec free_context : Call
  close_input free_format free_buffer : Call
  add_stream open_video open_output_file write_header write_trailer destroy_encoder : Call
  -- The frame is known by its `pts`.
  encode : ℕ → Call

-- The numbers that FFmpeg gives: the video stream that it chose, and the stream of the packet read.
pub record Streams : Type 0 where
  pub best : Log Call → ℕ
  pub of_packet : Log Call → ℕ

-- How `main` ends: by a return of -1 or -2, by an `assert`, or by a return of 0 after it has printed its
-- counts of packets and of frames.
pub data Exit : Type 0 where
  minus_one minus_two aborted : Exit
  finished : ℕ → ℕ → Exit

-- `++n` on an `int`.
abbrev pub int_next : {S A : Type 0} → ℕ → (ℕ → Prog S A) → Prog S A
int_next n rest s = if ltb n 2147483647 then rest (suc n) s else fault

module _ (env : Env Call) where
  -- The frame goes to an encoder, or nowhere.
  abbrev pub give : {A : Type 0} → Bool → ℕ → Prog (Log Call) A → Prog (Log Call) A
  give true n rest = ignore env (encode n) rest
  give false n rest = rest

  -- The frames of one packet. `pts` is counted along with `frameNum`.
  unfoldable pub receive_loop : ℕ → Bool → Bool → ℕ → Prog (Log Call) ℕ
  receive_loop zero encoding usable frame_num = exhausted
  receive_loop (suc fuel) encoding usable frame_num = attempt env receive_frame (return frame_num) (
      int_next frame_num λ next.
        deref usable
          (ignore env scale (give encoding next (receive_loop fuel encoding usable next))))

  module _ (streams : Streams) where
    abbrev pub is_video :
        {A : Type 0} → ℕ → Prog (Log Call) A → Prog (Log Call) A → Prog (Log Call) A
    is_video index m n l = if streams.of_packet l == index then m l else n l

    unfoldable pub read_loop : ℕ → ℕ → Bool → ℕ → Bool → Bool → ℕ → ℕ → Prog (Log Call) (ℕ × ℕ)
    read_loop zero inner encoding index packet usable packet_num frame_num = exhausted
    read_loop (suc fuel) inner encoding index packet usable packet_num frame_num =
        attempt env read_frame (return (packet_num, frame_num)) (
          deref packet (
            is_video index
              (int_next packet_num λ next. attempt env send_packet (return (next, frame_num)) (
                receive_loop inner encoding usable frame_num >>= λ frames.
                ignore env unref_packet
                  (read_loop fuel inner encoding index packet usable next frames)))
              (ignore env unref_packet
                (read_loop fuel inner encoding index packet usable packet_num frame_num))))

    unfoldable pub open_file : Prog (Log Call) Exit → Prog (Log Call) Exit
    open_file rest =
        attempt env open_input (return minus_one)
          (attempt env find_stream_info (return minus_one) (ignore env dump_format rest))

    -- `rest` is given the number of the video stream.
    unfoldable pub open_decoder : (ℕ → Prog (Log Call) Exit) → Prog (Log Call) Exit
    open_decoder rest = open_file (
        attempt env find_best_stream (return minus_one) (λ l.
          ignore env find_decoder
            (attempt env alloc_context (return minus_one) (
              attempt env copy_parameters (return minus_one)
                (attempt env open_codec (return minus_two) (rest (streams.best l)))))
            l))

    abbrev pub free_if : {A : Type 0} → Bool → Call → Prog (Log Call) A → Prog (Log Call) A
    free_if b c rest = if b then ignore env c rest else rest

    -- The releases at the end.
    abbrev pub release : Bool → Bool → Bool → Bool → Prog (Log Call) Exit → Prog (Log Call) Exit
    release packet picture frame scaler rest = free_if packet free_packet (
        free_if picture free_picture (
          free_if frame free_frame (
            free_if scaler free_scaler (
              ignore env close_codec
                (ignore env free_context (ignore env close_input (ignore env free_format rest)))))))

    -- ffmpeg_test.cpp
    unfoldable pub decode_main : ℕ → ℕ → Prog (Log Call) Exit
    decode_main fuel inner = open_decoder λ index. pointer env get_scaler λ scaler.
        pointer env malloc_buffer λ _. pointer env alloc_frame λ frame.
          pointer env alloc_picture λ picture. ignore env fill_picture (
            pointer env alloc_packet λ packet.
              read_loop fuel inner false index packet (frame && picture) 0 0
              >>= λ (packets, frames).
                  release packet picture frame scaler
                    (ignore env free_buffer (return (finished packets frames))))

    -- ffmpeg_encoder.cpp
    unfoldable pub encode_main : ℕ → ℕ → Prog (Log Call) Exit
    encode_main fuel inner = open_decoder λ index. pointer env get_scaler λ scaler.
        pointer env alloc_frame λ frame. pointer env alloc_picture λ picture. deref picture (
          ignore env get_buffer (
            pointer env alloc_packet λ packet. attempt env add_stream (return aborted) (
              attempt env open_video (return aborted) (
                attempt env open_output_file (return aborted) (
                  attempt env write_header (return aborted) (
                    read_loop fuel inner true index packet (frame && picture) 0 0
                    >>= λ (packets, frames). attempt env write_trailer (return aborted) (
                        release packet picture frame scaler
                          (ignore env destroy_encoder (return (finished packets frames))))))))))
