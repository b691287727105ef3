-- ===== src/Dispatch.antt =====
-- A request through both processes: what the sender publishes comes to a callback of the consumer, and what
-- that publishes comes back to the call that waits in the sender. The broker, which is not code of the
-- repository, hands a message over as it was published.
pub mod Answered
pub mod Listing
pub mod Routing
mod Examples
use aristote_dispatcher.Common.{
  ℕ, Bool, true, false, String, string_eq, Option, some, ◌==◌, if◌then◌else◌,
}
use aristote_dispatcher.Common.Exec.{ok}
use aristote_dispatcher.Consumer.Broker.{Broker}
use aristote_dispatcher.Consumer.Message.{IncomingMessage, Message}
use aristote_dispatcher.Consumer.RpcServer.Answer.{on_message_callback}
use aristote_dispatcher.Consumer.RpcServer.Callbacks.{server_specific_callback}
use aristote_dispatcher.Consumer.RpcServer.State.{World}
use aristote_dispatcher.Sender.Http.{CallArguments}
use aristote_dispatcher.Sender.RpcClient.{requested, request_body, request_key}

-- What a consumer of the queue `key` gets.
abbrev pub delivered : ℕ → String → Message → IncomingMessage
delivered tag key m = record {
  delivery_tag = tag;
  body = m.body;
  headers = m.headers;
  content_type = m.content_type;
  correlation_id = m.correlation_id;
  delivery_mode = some m.delivery_mode;
  priority = m.priority;
  reply_to = m.reply_to;
  routing_key = some key;
}

-- The request of a call, as it comes to the consumer.
abbrev pub arriving : ℕ → String → String → CallArguments → IncomingMessage
arriving tag id queue args =
    delivered tag (request_key args.model args.organization args.routing_mode)
      (requested (request_body args.routing_mode args.organization) (some id) queue args.priority)

abbrev pub callback : Bool → Broker → ℕ → IncomingMessage → World → World
callback true broker pick m w = (on_message_callback broker pick m w).1
callback false broker pick m w = (server_specific_callback broker pick m w).1

-- The callback that consumes from the queue that a request of that mode is sent to.
abbrev pub handled : Broker → ℕ → String → IncomingMessage → World → World
handled broker pick mode m w = callback (mode == "any") broker pick m w
