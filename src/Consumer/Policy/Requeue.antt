-- ===== src/Consumer/Policy/Requeue.antt =====
-- What `requeue` keeps of a message, and what it does when the broker fails.
use aristote_dispatcher.Common.{
  ℕ, ◌+◌, ◌≡◌, ◌≢◌, String, string_eq, false, Option, none, some, List, [], ◌∷◌, ◌++◌,
}
use aristote_dispatcher.Common.Dict.{lookup, get_or}
use aristote_dispatcher.Common.Exec.{Result, ok, raised}
use aristote_dispatcher.Consumer.Broker.{Broker, Effect, acked, slept, published}
use aristote_dispatcher.Consumer.Exceptions.{Exception, rejected}
use aristote_dispatcher.Consumer.Message.{IncomingMessage, Message}

-- The message `c` under the routing key `key` is what goes back to a queue of `m`: it counts one requeue more,
-- and keeps the rest. The key is the given queue, or else the one under which `m` came.
pub record IsCopy (m : IncomingMessage) (queue : Option String) (c : Message) (key : Option String)
    : Type 0 where
  pub counts : get_or "x-requeue-count" 0 c.headers ≡ get_or "x-requeue-count" 0 m.headers + 1
  pub others :
      (header : String)
      → header ≢ "x-requeue-count"
      → lookup header c.headers ≡ lookup header m.headers
  pub same_body : c.body ≡ m.body
  pub same_reply_to : c.reply_to ≡ m.reply_to
  pub same_correlation_id : c.correlation_id ≡ m.correlation_id
  pub same_priority : c.priority ≡ m.priority
  pub to_queue : (q : String) → queue ≡ some q → key ≡ some q
  pub to_origin : queue ≡ none → key ≡ m.routing_key

abbrev pub waited : Option ℕ → List Effect
waited none = []
waited (some delay) = slept delay ∷ []

-- What `requeue` leaves of a message, and what the broker then said.
pub data Requeued (b : Broker) (m : IncomingMessage) (queue : Option String) (delay : Option ℕ)
    (trace : List Effect) (out : Result Exception Unit × List Effect) : Type 0 where
  kept :
      b.acks m.delivery_tag ≡ false
      → out ≡ (raised rejected, trace)
      → Requeued b m queue delay trace out
  lost :
      (c : Message) (key : Option String)
      → IsCopy m queue c key
      → b.publishes c key ≡ false
      → out ≡ (raised rejected, (trace ++ acked m.delivery_tag ∷ []) ++ waited delay)
      → Requeued b m queue delay trace out
  moved :
      (c : Message) (key : Option String)
      → IsCopy m queue c key
      → out
        ≡ (ok tt, ((trace ++ acked m.delivery_tag ∷ []) ++ waited delay) ++ published c key ∷ [])
      → Requeued b m queue delay trace out
