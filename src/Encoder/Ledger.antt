-- ===== src/Encoder/Ledger.antt =====
-- ffmpeg/ffmpeg_encoder.cpp: what a log of calls says of the resources and of the output file, and
-- how programs that write to it are composed.
use miscellaneous.Base.{ℕ, zero, suc, Bool, true, List, [], ◌∷◌, length}
use miscellaneous.Encoder.Calls.{
  alloc_output_context, alloc_context, io_open, io_close, avformat_write_header, av_write_trailer,
  send_frame, receive_packet, unref_packet, free_context, free_format_context, Event, event, Log,
}

-- How many resources of each kind are held; `wrong` counts releases of what is not held.
pub record Held : Type 0 where
  pub formats : ℕ
  pub codecs : ℕ
  pub files : ℕ
  pub packets : ℕ
  pub wrong : ℕ

abbrev pub holding : ℕ → ℕ → ℕ → Held
holding formats codecs files = record {
  formats = formats;
  codecs = codecs;
  files = files;
  packets = 0;
  wrong = 0;
}

abbrev pub one_less : ℕ → ℕ
one_less zero = zero
one_less (suc n) = n

abbrev pub blame : ℕ → ℕ → ℕ
blame zero wrong = suc wrong
blame (suc n) wrong = wrong

abbrev pub change : Event → Held → Held
change (event alloc_output_context true) h = record h { formats = suc h.formats }
change (event free_format_context _) h = record h {
  formats = one_less h.formats;
  wrong = blame h.formats h.wrong;
}
change (event alloc_context true) h = record h { codecs = suc h.codecs }
change (event free_context _) h = record h {
  codecs = one_less h.codecs;
  wrong = blame h.codecs h.wrong;
}
change (event io_open true) h = record h { files = suc h.files }
change (event io_close _) h = record h { files = one_less h.files; wrong = blame h.files h.wrong }
change (event receive_packet true) h = record h { packets = suc h.packets }
change (event unref_packet _) h = record h {
  packets = one_less h.packets;
  wrong = blame h.packets h.wrong;
}
change _ h = h

abbrev pub held : Log → Held
held [] = holding 0 0 0
held (e ∷ l) = change e (held l)

-- What makes the output, the last first: the header written, the frames that were handed to the codec,
-- by their number and with whether it took them, and the writing of the trailer, with whether it
-- succeeded; `misplaced` is a packet asked for when no frame is before it, or one that was refused.
pub data Part : Type 0 where
  header misplaced : Part
  trailer : Bool → Part
  frame : ℕ → Bool → Part

abbrev pub ask : List Part → List Part
ask (frame pts true ∷ ps) = frame pts true ∷ ps
ask ps = misplaced ∷ ps

abbrev pub put : Event → List Part → List Part
put (event avformat_write_header true) ps = header ∷ ps
put (event av_write_trailer b) ps = trailer b ∷ ps
put (event (send_frame pts) b) ps = frame pts b ∷ ps
put (event receive_packet _) ps = ask ps
put _ ps = ps

abbrev pub parts : Log → List Part
parts [] = []
parts (e ∷ l) = put e (parts l)

-- The header and the frames from 1 on, with the answers to each, the last first.
abbrev pub numbered : List Bool → List Part
numbered [] = header ∷ []
numbered (b ∷ bs) = frame (suc (length bs)) b ∷ numbered bs
