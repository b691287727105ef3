-- ===== src/Consumer/Policy.antt =====
-- quality_of_service_policy/: whether a request goes to the server that was chosen, or back to a queue.
-- The proofs are in `Deferral` and `Requeue`.
pub mod Deferral
pub mod Requeue
use aristote_dispatcher.Common.{
  ℕ, ◌+◌, ◌-◌, String, Option, none, some, Bool, true, false, ◌||◌, leb, if◌then◌else◌, string_eq,
}
use aristote_dispatcher.Common.Dict.{get_or, insert}
use aristote_dispatcher.Common.Exec.{Result, ok, raised, pure, raise, lift, ◌>>=◌, ◌>>◌}
use aristote_dispatcher.Common.Float.{Float, ltb_float}
use aristote_dispatcher.Consumer.Broker.{Broker, Io, slept, requeue_task, emit, publish, ack}
use aristote_dispatcher.Consumer.Exceptions.{Exception, type_error, attribute_error}
use aristote_dispatcher.Consumer.Message.{IncomingMessage, Message, DeliveryMode, persistent}

pub data QualityOfServicePolicy : Type 0 where
  warning_log_policy : (performance_threshold : Option Float) → QualityOfServicePolicy
  performance_based_requeue_policy : (performance_threshold : Option Float) → QualityOfServicePolicy
  parallel_requests_threshold_requeue_policy :
      (performance_threshold : Option Float) → QualityOfServicePolicy

-- `performance_indicator > self.performance_threshold`
unfoldable pub exceeds : Float → Option Float → Result Exception Bool
exceeds indicator none = raised type_error
exceeds indicator (some threshold) = ok (ltb_float threshold indicator)

-- A message that is deferred on purpose.
abbrev pub defer : IncomingMessage → Option String → Option ℕ → Io Bool
defer message target delay = do emit (requeue_task message target delay); pure false

-- The arguments of this log line name `settings.MAX_PARALLEL_REQUESTS`, and the settings have no such
-- field: Python raises AttributeError before it logs.
abbrev pub log_deferral : Io Unit
log_deferral = raise attribute_error

unfoldable pub apply_performance_based :
    Option Float → Option Float → ℕ → ℕ → IncomingMessage → Option String → Option ℕ → Io Bool
unfolding exceeds
apply_performance_based threshold none current maximum message target delay = pure true
apply_performance_based threshold (some indicator) current maximum message target delay = do
  over ← lift (exceeds indicator threshold)
  if over || leb maximum current then log_deferral >> defer message target delay else pure true

-- Both warnings are log lines only.
unfoldable pub apply_warning_log : Option Float → Option Float → Io Bool
unfolding exceeds
apply_warning_log threshold none = pure true
apply_warning_log threshold (some indicator) = do
  over ← lift (exceeds indicator threshold)
  pure true

abbrev pub is_urgent : ℕ → Option ℕ → Bool
is_urgent best none = false
is_urgent best (some priority) = leb (best - 1) priority

unfoldable pub apply_parallel_requests_threshold :
    ℕ → ℕ → ℕ → IncomingMessage → Option String → Option ℕ → Io Bool
apply_parallel_requests_threshold best current maximum message target delay =
    if is_urgent best message.priority
    then pure true
    else if leb maximum current
    then defer message target delay
    else pure true

-- `apply_policy`, by the class of the policy. `best` is `settings.BEST_PRIORITY`.
unfoldable pub apply_policy :
    QualityOfServicePolicy
    → ℕ
    → Option Float
    → ℕ
    → ℕ
    → IncomingMessage
    → Option String
    → Option ℕ
    → Io Bool
unfolding apply_warning_log apply_performance_based apply_parallel_requests_threshold
apply_policy (warning_log_policy t) best indicator current maximum message target delay =
    apply_warning_log t indicator
apply_policy (performance_based_requeue_policy t) best indicator current maximum message target
      delay =
    apply_performance_based t indicator current maximum message target delay
apply_policy (parallel_requests_threshold_requeue_policy t) best indicator current maximum message
      target delay =
    apply_parallel_requests_threshold best current maximum message target delay

abbrev pub or_persistent : Option DeliveryMode → DeliveryMode
or_persistent none = persistent
or_persistent (some mode) = mode

-- The message that `requeue` publishes.
unfoldable pub requeued : IncomingMessage → Message
requeued msg = record {
  body = msg.body;
  headers = insert "x-requeue-count" (get_or "x-requeue-count" 0 msg.headers + 1) msg.headers;
  content_type = msg.content_type;
  correlation_id = msg.correlation_id;
  delivery_mode = or_persistent msg.delivery_mode;
  priority = msg.priority;
  reply_to = msg.reply_to;
}

abbrev pub target_key : IncomingMessage → Option String → Option String
target_key msg none = msg.routing_key
target_key msg (some queue) = some queue

abbrev pub sleep_if : Option ℕ → Io Unit
sleep_if none = pure tt
sleep_if (some delay) = emit (slept delay)

-- utils.requeue: the original is acknowledged before the copy is published.
unfoldable pub requeue : Broker → IncomingMessage → Option String → Option ℕ → Io Unit
unfolding requeued
requeue broker msg queue delay = do
  ack broker msg
  sleep_if delay
  publish broker (requeued msg) (target_key msg queue)
