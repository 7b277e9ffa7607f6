-- ===== src/Ipc/MessageQueue.antt =====
-- ipcCode/mqueue/sender.c and receiver.c: messages with a type, over a queue of the system, which is a
-- parameter.
mod Order
mod Tests
use miscellaneous.Base.{
  ℕ, ◌<◌, ◌≡◌, Bool, true, false, if◌then◌else◌, ◌==◌, Option, none, some, List, [], ◌∷◌, ◌++◌,
  Text, text, length,
}
use miscellaneous.Base.Run.{Run, ok, fault, ◌>>=◌}

pub record QueuedMessage : Type 0 where
  pub type : ℕ
  pub payload : Text

abbrev pub message : ℕ → Text → QueuedMessage
message type payload = record { type = type; payload = payload }

-- The first message of a type, and the others.
abbrev pub keep :
    QueuedMessage
    → Option (QueuedMessage × List QueuedMessage)
    → Option (QueuedMessage × List QueuedMessage)
keep m none = none
keep m (some (x, rest)) = some (x, m ∷ rest)

abbrev pub take_type : ℕ → List QueuedMessage → Option (QueuedMessage × List QueuedMessage)
take_type t [] = none
take_type t (m ∷ ms) = if m.type == t then some (m, ms) else keep m (take_type t ms)

abbrev pub viewed :
    {Q : Type 0}
    → (Q → List QueuedMessage)
    → Option (QueuedMessage × Q)
    → Option (QueuedMessage × List QueuedMessage)
viewed contents none = none
viewed contents (some (m, q)) = some (m, contents q)

-- `msgsnd` and `msgrcv`, neither of which waits. A message that is sent stands last, if there is room;
-- the first of the type asked for is received.
pub record Queue (Q : Type 0) : Type 0 where
  pub contents : Q → List QueuedMessage
  pub room : ℕ
  pub msgsnd : Q → QueuedMessage → Q
  pub msgrcv : Q → ℕ → Option (QueuedMessage × Q)
  pub msgsnd_lem :
      (q : Q) (m : QueuedMessage)
      → length (contents q) < room
      → contents (msgsnd q m) ≡ contents q ++ (m ∷ [])
  pub msgrcv_lem : (q : Q) (t : ℕ) → viewed contents (msgrcv q t) ≡ take_type t (contents q)

abbrev pub sent_messages : List QueuedMessage
sent_messages =
    message 1 (text "msg1")
    ∷ message 1 (text "msg2")
    ∷ message 2 (text "msg3")
    ∷ message 2 (text "msg4")
    ∷ message 3 (text "msg5")
    ∷ message 3 (text "msg6")
    ∷ []

abbrev pub asked_types : List ℕ
asked_types = 3 ∷ 1 ∷ 2 ∷ 1 ∷ 3 ∷ 2 ∷ []

module _ {Q : Type 0} (queue : Queue Q) where
  unfoldable pub send_all : List QueuedMessage → Q → Q
  send_all [] q = q
  send_all (m ∷ ms) q = send_all ms (queue.msgsnd q m)

  -- The exit status, with what `ftok` and `msgget` answer.
  unfoldable pub sender_main : Bool → Bool → Q → ℕ × Q
  sender_main key qid q =
      if key then (if qid then (0, send_all sent_messages q) else (255, q)) else (255, q)

  -- A failed `msgrcv` leaves the message as it was, not initialised, and it is printed all the same.
  pub printed :
      (Q → Run (List QueuedMessage × Q)) → Option (QueuedMessage × Q) → Run (List QueuedMessage × Q)
  printed rest none = fault
  printed rest (some (m, q)) = rest q >>= λ (ms, q'). ok (m ∷ ms, q')

  -- What is printed, in this order.
  unfoldable pub receive_all : List ℕ → Q → Run (List QueuedMessage × Q)
  unfolding printed
  receive_all [] q = ok ([], q)
  receive_all (t ∷ ts) q = printed (receive_all ts) (queue.msgrcv q t)

  -- The exit status, what is printed and the queue before it is removed.
  unfoldable pub receiver_main : Bool → Bool → Bool → Q → Run (ℕ × List QueuedMessage × Q)
  receiver_main key qid removed q =
      if key
      then (if qid
          then (receive_all asked_types q >>= λ (ms, q'). ok (if removed then 0 else 255, ms, q'))
          else ok (255, [], q))
      else ok (255, [], q)
