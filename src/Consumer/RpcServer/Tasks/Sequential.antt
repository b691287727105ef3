-- ===== src/Consumer/RpcServer/Tasks/Sequential.antt =====
-- The schedules in which no callback is interrupted.
use aristote_dispatcher.Common.{
  ℕ, ◌<◌, ◌≡◌, refl, sym, ap, ◌∙◌, lt→ltb, Bool-cases, Option-cases, inl, inr, none, some, List, [],
  ◌∷◌, ◌++◌,
}
use aristote_dispatcher.Common.Exec.{Result, ok, raised, continue}
use aristote_dispatcher.Consumer.Broker.{Broker}
use aristote_dispatcher.Consumer.Exceptions.{Exception}
use aristote_dispatcher.Consumer.Message.{IncomingMessage}
use aristote_dispatcher.Consumer.RpcServer.Answer.{
  Decision, answer, decide, send_answer, conclude, on_message_callback,
}
use aristote_dispatcher.Consumer.RpcServer.Callbacks.{decide_private, serve_private}
use aristote_dispatcher.Consumer.RpcServer.Delivery.{server_specific_callback_lem}
use aristote_dispatcher.Consumer.RpcServer.Events
use aristote_dispatcher.Consumer.RpcServer.State.{World}
use aristote_dispatcher.Consumer.RpcServer.Tasks.{
  Machine, begin, advance, Event, arrival, private_arrival, resumption, completion, expiry, step,
  run,
}

abbrev pub idle : World → Machine
idle w = record { world = w; tasks = [] }

-- What the rest of a callback does, as a function of what it decided.
abbrev rest_of : Broker → IncomingMessage → Result Exception Decision × World → World
rest_of broker m (raised e, w) = w
rest_of broker m (ok d, w) = (conclude broker m d w).1

drained :
    (broker : Broker) (m : IncomingMessage) (out : Result Exception Decision × World)
    → advance broker 0 (advance broker 0 (begin m [] out)) ≡ idle (rest_of broker m out)
unfolding advance send_answer
drained broker m (raised e, w) = refl
drained broker m (ok none, w) = refl
drained broker m (ok (some (s, params)), w) = elim (Option-cases w.rpc.channel) [
  | inl closed ↦ rw closed refl
  | inr (c, live) ↦ elim (Bool-cases (broker.publishes (answer m params) m.reply_to)) [
    | inr refused ↦ rw (rest_of, live, refused) refl
    | inl taken ↦ elim (Bool-cases (broker.acks m.delivery_tag)) [
      | inr silent ↦ rw (rest_of, live, taken, silent) refl
      | inl acked ↦ rw (rest_of, live, taken, acked) refl
    ]
  ]
]

rest_lem :
    (broker : Broker) (m : IncomingMessage) (out : Result Exception Decision × World)
    → rest_of broker m out ≡ (continue out.0 (conclude broker m) out.1).1
rest_lem broker m (raised e, w) = refl
rest_lem broker m (ok d, w) = refl

private_rest :
    (broker : Broker) (pick : ℕ) (m : IncomingMessage) (w : World)
    → rest_of broker m (decide_private pick m w) ≡ (serve_private broker pick m w).1
unfolding serve_private
private_rest broker pick m w = rest_lem broker m (decide_private pick m w)

-- The events of one callback that is not interrupted.
abbrev pub schedule : Events.Event → List Event
schedule (Events.request pick m) = arrival pick m ∷ resumption 0 ∷ resumption 0 ∷ []
schedule (Events.private_request pick m) = private_arrival pick m ∷ resumption 0 ∷ resumption 0 ∷ []
schedule (Events.completion m) = completion m ∷ []
schedule (Events.expiry s id) = expiry s id ∷ []

abbrev pub schedules : List Events.Event → List Event
schedules [] = []
schedules (e ∷ es) = schedule e ++ schedules es

run-append :
    (broker : Broker) (slots : ℕ) (xs ys : List Event) (c : Machine)
    → run broker slots (xs ++ ys) c ≡ run broker slots ys (run broker slots xs c)
unfolding run
run-append broker slots [] ys c = refl
run-append broker slots (x ∷ xs) ys c = run-append broker slots xs ys (step broker slots x c)

schedule-step :
    (broker : Broker) (slots : ℕ) (e : Events.Event) (w : World)
    → 0 < slots
    → run broker slots (schedule e) (idle w) ≡ idle (Events.step broker e w)
unfolding run step Events.step on_message_callback
schedule-step broker slots (Events.request pick m) w room =
    let out = decide pick m w in
    rw (lt→ltb 0 slots room) (drained broker m out ∙ ap idle (rest_lem broker m out))
schedule-step broker slots (Events.private_request pick m) w room =
    let out = decide_private pick m w in
    let served : rest_of broker m out ≡ (serve_private broker pick m w).1 =
      private_rest broker pick m w in
    let swallowed =
      ap (λ (r : Result Exception Unit × World). r.1)
        (server_specific_callback_lem broker pick m w) in
    rw (lt→ltb 0 slots room) (drained broker m out ∙ ap idle (served ∙ sym swallowed))
schedule-step broker slots (Events.completion m) w room = refl
schedule-step broker slots (Events.expiry s id) w room = refl

-- With room for one callback at least: the tasks of any sequence of callbacks, run one after the other with
-- no interruption, leave the world as the callbacks do that are one step each, and no task is left.
schedules-run :
    (broker : Broker) (slots : ℕ) (es : List Events.Event) (w : World)
    → 0 < slots
    → run broker slots (schedules es) (idle w) ≡ idle (Events.run broker es w)
unfolding run Events.run
schedules-run broker slots [] w room = refl
schedules-run broker slots (e ∷ es) w room =
    run-append broker slots (schedule e) (schedules es) (idle w)
    ∙ ap (run broker slots (schedules es)) (schedule-step broker slots e w room)
    ∙ schedules-run broker slots es (Events.step broker e w) room
