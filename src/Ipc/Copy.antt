-- ===== src/Ipc/Copy.antt =====
-- ipcCode/flock/producer.c and consumer.c, and ipcCode/pipes/pipeUN.c: what one process writes to a file
-- or a pipe, another copies to its standard output, byte by byte.
mod Outcome
mod Tests
use miscellaneous.Base.{ℕ, zero, suc, Bool, true, false, if◌then◌else◌, Text, text}
use miscellaneous.Base.Prog.{Prog, ◌>>◌, return}
use miscellaneous.Base.Attempt.{Log, Env, exhausted, attempt, ignore}

pub data End : Type 0 where
  read_end write_end : End

pub data Call : Type 0 where
  open_file get_lock write_lock read_lock unlock close_file : Call
  open_pipe wait : Call
  close_end : End → Call
  write : Text → Call
  -- A `read` of one byte, and a `write` of it to the standard output.
  read_byte : Call
  show : ℕ → Call

-- What the calls give besides: the byte that is read, and whether `F_GETLK` finds no lock.
pub record Answers : Type 0 where
  pub byte : Log Call → ℕ
  pub unlocked : Log Call → Bool

abbrev pub data_string : Text
data_string = text "Now is the winter of our discontent\nMade glorious summer by this sun of York\n"

abbrev pub pipe_message : Text
pipe_message = text "Nature's first green is gold\n"

-- The result of `fork`.
pub data Fork : Type 0 where
  no_fork in_child in_parent : Fork

module _ (env : Env Call) where
  unfoldable pub producer_main : Prog (Log Call) ℕ
  producer_main = attempt env open_file (return 255) (
      attempt env write_lock (return 255) (
        ignore env (write data_string)
          (attempt env unlock (return 255) (ignore env close_file (return 0)))))

  module _ (answers : Answers) where
    unfoldable pub copy_loop : ℕ → Prog (Log Call) (Unit {0})
    copy_loop zero = exhausted
    copy_loop (suc fuel) =
        attempt env read_byte (return tt)
          (λ l. ignore env (show (answers.byte l)) (copy_loop fuel) l)

    abbrev pub when_unlocked : Prog (Log Call) ℕ → Prog (Log Call) ℕ
    when_unlocked rest l = if answers.unlocked l then rest l else return 255 l

    unfoldable pub consumer_main : ℕ → Prog (Log Call) ℕ
    consumer_main fuel = attempt env open_file (return 255) (
        ignore env get_lock (
          when_unlocked (
            attempt env read_lock (return 255) (
              copy_loop fuel
              >> attempt env unlock (return 255) (ignore env close_file (return 0))))))

    -- pipeUN.c, in the process of its own that a fork makes.
    unfoldable pub pipe_main : ℕ → Fork → Prog (Log Call) ℕ
    pipe_main fuel no_fork = attempt env open_pipe (return 255) (return 255)
    pipe_main fuel in_child = attempt env open_pipe (return 255) (
        ignore env (close_end write_end)
          (copy_loop fuel >> ignore env (close_end read_end) (return 0)))
    pipe_main fuel in_parent = attempt env open_pipe (return 255) (
        ignore env (close_end read_end) (
          ignore env (write pipe_message)
            (ignore env (close_end write_end) (ignore env wait (return 0)))))
