-- ===== src/Ipc/MessageQueue/Tests.antt =====
-- ipcCode/mqueue: a queue that is a list with room for six messages.
use miscellaneous.Base.{
  ◌≡◌, refl, arith, Bool, true, false, ltb, lt→ltb, if◌then◌else◌, Option, none, some, List, [],
  ◌∷◌, ◌++◌, length,
}
use miscellaneous.Base.Run.{fault, Yields}
use miscellaneous.Ipc.MessageQueue.{
  QueuedMessage, take_type, viewed, Queue, sender_main, receiver_main,
}
use miscellaneous.Ipc.MessageQueue.Order.{by_asking, receiver_main-sender_main}

abbrev append_if : Bool → List QueuedMessage → QueuedMessage → List QueuedMessage
append_if b q m = if b then q ++ (m ∷ []) else q

same_view : (o : Option (QueuedMessage × List QueuedMessage)) → viewed (λ q. q) o ≡ o
same_view none = refl
same_view (some (m, q)) = refl

appends :
    (q : List QueuedMessage) (m : QueuedMessage) (b : Bool)
    → b ≡ true
    → append_if b q m ≡ q ++ (m ∷ [])
appends q m true eq = refl
appends q m false eq = absurd (cc eq)

abbrev six : Queue (List QueuedMessage)
six = record {
  contents = λ q. q;
  room = 6;
  msgsnd = λ q. append_if (ltb (length q) 6) q;
  msgrcv = λ q t. take_type t q;
  msgsnd_lem = λ q m h. appends q m (ltb (length q) 6) (lt→ltb (length q) 6 h);
  msgrcv_lem = λ q t. same_view (take_type t q);
}

receiver_main-sender_main_example :
    ((sender_main six true true []).0 ≡ 0)
    × Yields
        (λ (status, ms, q'). (status ≡ 0) × (ms ≡ by_asking) × (q' ≡ []))
        (receiver_main six true true true (sender_main six true true []).1)
    × (receiver_main six true true true [] ≡ fault)
receiver_main-sender_main_example = receiver_main-sender_main six [] true refl (omega arith)
