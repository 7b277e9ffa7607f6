-- ===== src/Ipc/MessageQueue/Order.antt =====
-- ipcCode/mqueue: which message the receiver gets when.
use miscellaneous.Base.{
  ℕ, ◌+◌, ◌≤◌, ◌≡◌, refl, sym, ap, ◌∙◌, arith, Bool, true, if◌then◌else◌, Option, none, some, List,
  [], ◌∷◌, ◌++◌, text, length, length-append,
}
use mathlib.Core.List.{append_assoc, append-nil}
use miscellaneous.Base.Run.{Run, ok, fault, out_of_fuel, ◌>>=◌, Yields, yields, Yields-bind}
use miscellaneous.Ipc.MessageQueue.{
  QueuedMessage, message, take_type, viewed, Queue, sent_messages, asked_types, send_all,
  sender_main, printed, receive_all, receiver_main,
}

-- The receiver on a list of messages.
abbrev list_printed :
    (List QueuedMessage → Run (List QueuedMessage × List QueuedMessage))
    → Option (QueuedMessage × List QueuedMessage)
    → Run (List QueuedMessage × List QueuedMessage)
list_printed rest none = fault
list_printed rest (some (m, q)) = rest q >>= λ (ms, q'). ok (m ∷ ms, q')

abbrev receive_list : List ℕ → List QueuedMessage → Run (List QueuedMessage × List QueuedMessage)
receive_list [] ms = ok ([], ms)
receive_list (t ∷ ts) ms = list_printed (receive_list ts) (take_type t ms)

-- The messages in the order in which the receiver asks for them.
abbrev pub by_asking : List QueuedMessage
by_asking =
    message 3 (text "msg5")
    ∷ message 1 (text "msg1")
    ∷ message 2 (text "msg3")
    ∷ message 1 (text "msg2")
    ∷ message 3 (text "msg6")
    ∷ message 2 (text "msg4")
    ∷ []

module _ {Q : Type 0} (queue : Queue Q) where
  more_room :
      (c c' ms : List QueuedMessage) (m : QueuedMessage)
      → c' ≡ c ++ (m ∷ [])
      → length c + length (m ∷ ms) ≤ queue.room
      → length c' + length ms ≤ queue.room
  more_room c c' ms m eq h =
      let size : length c' ≡ length c + 1 = ap length eq ∙ length-append c (m ∷ []) in
      omega (arith, size, h)

  send_all-contents :
      (ms : List QueuedMessage) (q : Q)
      → length (queue.contents q) + length ms ≤ queue.room
      → queue.contents (send_all queue ms q) ≡ queue.contents q ++ ms
  unfolding send_all
  send_all-contents [] q h = sym (append-nil _)
  send_all-contents (m ∷ ms) q h =
      let sent = queue.msgsnd_lem q m (omega (arith, h)) in
      send_all-contents ms (queue.msgsnd q m) (more_room _ _ ms m sent h)
      ∙ ap (λ x. x ++ ms) sent
      ∙ append_assoc (queue.contents q) (m ∷ []) ms

  abbrev view : Run (List QueuedMessage × Q) → Run (List QueuedMessage × List QueuedMessage)
  view m = m >>= λ (ms, q). ok (ms, queue.contents q)

  cons_view :
      (m : QueuedMessage) (x : Run (List QueuedMessage × Q))
      → view (x >>= λ (ms, q). ok (m ∷ ms, q)) ≡ (view x >>= λ (ms, c). ok (m ∷ ms, c))
  cons_view m (ok (ms, q)) = refl
  cons_view m fault = refl
  cons_view m out_of_fuel = refl

  printed-view :
      (ts : List ℕ)
      → ((q : Q) → view (receive_all queue ts q) ≡ receive_list ts (queue.contents q))
      → (o : Option (QueuedMessage × Q))
      → view (printed queue (receive_all queue ts) o)
        ≡ list_printed (receive_list ts) (viewed queue.contents o)
  unfolding printed
  printed-view ts ih none = refl
  printed-view ts ih (some (m, q)) =
      cons_view m (receive_all queue ts q) ∙ ap (λ x. x >>= λ (ms, c). ok (m ∷ ms, c)) (ih q)

  -- Refinement: seen as a list, the queue is used as the list is.
  receive_all-view :
      (ts : List ℕ) (q : Q) → view (receive_all queue ts q) ≡ receive_list ts (queue.contents q)
  unfolding receive_all
  receive_all-view [] q = refl
  receive_all-view (t ∷ ts) q =
      printed-view ts (receive_all-view ts) (queue.msgrcv q t)
      ∙ ap (list_printed (receive_list ts)) (queue.msgrcv_lem q t)

  viewed_run :
      (x : Run (List QueuedMessage × Q)) (ms : List QueuedMessage)
      → view x ≡ ok (ms, [])
      → Yields (λ (ms', q'). (ms' ≡ ms) × (queue.contents q' ≡ [])) x
  viewed_run (ok (ms', q')) ms eq =
      let pair : ◌≡◌ {A = List QueuedMessage × List QueuedMessage} (ms', queue.contents q')
          (ms, []) =
        cc eq in
      yields (ap (λ x. x.0) pair, ap (λ x. x.1) pair)
  viewed_run fault ms eq = absurd (cc eq)
  viewed_run out_of_fuel ms eq = absurd (cc eq)

  viewed_fault : (x : Run (List QueuedMessage × Q)) → view x ≡ fault → x ≡ fault
  viewed_fault (ok (ms, q)) eq = absurd (cc eq)
  viewed_fault fault eq = refl
  viewed_fault out_of_fuel eq = absurd (cc eq)

  -- Both programs on a queue that is empty at first and has room for six messages, when they get hold of
  -- it: the sender ends with status 0, the receiver too if it can remove the queue, else with 255. The
  -- receiver prints the six messages in the order of the types that it asks for, and of two of a type
  -- the one sent first, and leaves the queue empty. On a queue that is still empty, the receiver prints a
  -- message that has never been initialised, which is undefined.
  pub receiver_main-sender_main :
      (q : Q) (removed : Bool)
      → queue.contents q ≡ []
      → 6 ≤ queue.room
      → ((sender_main queue true true q).0 ≡ 0)
        × Yields
            (λ (status, ms, q').
              (status ≡ (if removed then 0 else 255)) × (ms ≡ by_asking) × (queue.contents q' ≡ []))
            (receiver_main queue true true removed (sender_main queue true true q).1)
        × (receiver_main queue true true removed q ≡ fault)
  unfolding sender_main receiver_main
  receiver_main-sender_main q removed empty h =
      let sent =
        send_all-contents sent_messages q (omega (arith, ap length empty, h))
        ∙ ap (λ x. x ++ sent_messages) empty in
      (
        refl,
        Yields-bind
            (viewed_run (receive_all queue asked_types (send_all queue sent_messages q)) by_asking
              (receive_all-view asked_types _ ∙ ap (receive_list asked_types) sent))
            λ (ms, q') (p, e). yields (refl, p, e),
        ap (λ x. x >>= λ (ms, q'). ok (if removed then 0 else 255, ms, q'))
            (viewed_fault _ (receive_all-view asked_types q ∙ ap (receive_list asked_types) empty)),
      )
