-- ===== src/Consumer/RpcServer/Events.antt =====
-- The consumer as a sequence of callbacks: what the event loop runs, one callback as one step.
use aristote_dispatcher.Common.{ℕ, String, string_eq, List, [], ◌∷◌}
use aristote_dispatcher.Consumer.Broker.{Broker}
use aristote_dispatcher.Consumer.Message.{IncomingMessage}
use aristote_dispatcher.Consumer.Server.{VllmServer, server_eq}
use aristote_dispatcher.Consumer.RpcServer.Answer.{on_message_callback}
use aristote_dispatcher.Consumer.RpcServer.Callbacks.{
  on_completion_callback, server_specific_callback,
}
use aristote_dispatcher.Consumer.RpcServer.State.{World, expire_request}

-- What the event loop runs: a message of one of the three kinds of queue, with the random number that
-- its callback draws, or the end of an expiry task's sleep.
pub data Event : Type 0 where
  request : ℕ → IncomingMessage → Event
  private_request : ℕ → IncomingMessage → Event
  completion : IncomingMessage → Event
  expiry : VllmServer → String → Event

unfoldable pub step : Broker → Event → World → World
step broker (request pick m) w = (on_message_callback broker pick m w).1
step broker (private_request pick m) w = (server_specific_callback broker pick m w).1
step broker (completion m) w = (on_completion_callback broker m w).1
step broker (expiry s id) w = (expire_request s id w).1

unfoldable pub run : Broker → List Event → World → World
run broker [] w = w
run broker (e ∷ es) w = run broker es (step broker e w)
