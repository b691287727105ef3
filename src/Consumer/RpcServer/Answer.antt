-- ===== src/Consumer/RpcServer/Answer.antt =====
-- rpc_server.py: the answer to a request, and the callback of the model's queue. Logging is left out, but
-- where the arguments of a log line can raise.
use aristote_dispatcher.Common.{
  ℕ, String, string_eq, Option, none, some, [], length, option_eq, if◌then◌else◌,
}
use aristote_dispatcher.Common.Dict.{get_or}
use aristote_dispatcher.Common.Exec.{pure, raise, lift, gets, try_except, ◌>>=◌, ◌>>◌}
use aristote_dispatcher.Common.Float.{Float, float_eq}
use aristote_dispatcher.Consumer.Broker.{Broker, expire_task, emit, publish, ack}
use aristote_dispatcher.Consumer.Exceptions.{Exception, server_not_found}
use aristote_dispatcher.Consumer.Message.{
  MessageData, llm_params, IncomingMessage, Message, persistent,
}
use aristote_dispatcher.Consumer.Policy.{apply_policy}
use aristote_dispatcher.Consumer.Priority.{apply_priority}
use aristote_dispatcher.Consumer.Server.{VllmServer, server_eq}
use aristote_dispatcher.Consumer.Settings.{Settings}
use aristote_dispatcher.Consumer.Strategy
use aristote_dispatcher.Consumer.Strategy.{Strategy}
use aristote_dispatcher.Consumer.RpcServer.State.{
  Rpc, io, with_strategy, parallel_requests, default_exchange, add_request,
}

-- `str(x)` for a text or None.
abbrev pub str : Option String → String
str none = "None"
str (some s) = s

abbrev pub requeue_count : IncomingMessage → ℕ
requeue_count m = get_or "x-requeue-count" 0 m.headers

-- The answer that names a server, and the one that names none.
abbrev pub server_params :
    Settings → IncomingMessage → VllmServer → ℕ → Option ℕ → Option Float → MessageData
server_params settings m s current priority score = record {
  llm_url = some s.url;
  llm_token = s.token;
  llm_organization = some s.organization;
  strategy = settings.routing_strategy;
  requeue_count = requeue_count m;
  max_parallel_requests = s.max_parallel_requests;
  current_parallel_requests = some current;
  forwarded_priority = priority;
  performance_score = score;
}

abbrev pub busy_params : Settings → IncomingMessage → MessageData
busy_params settings m = record {
  llm_url = none;
  llm_token = none;
  llm_organization = none;
  strategy = settings.routing_strategy;
  requeue_count = requeue_count m;
  max_parallel_requests = settings.default_max_parallel_requests;
  current_parallel_requests = none;
  forwarded_priority = none;
  performance_score = none;
}

-- The message that answers `m`.
abbrev pub answer : IncomingMessage → MessageData → Message
answer m params = record {
  body = llm_params params;
  headers = [];
  content_type = none;
  correlation_id = some (str m.correlation_id);
  delivery_mode = persistent;
  priority = none;
  reply_to = none;
}

-- What the first `try` of a callback leaves: an early return, or whom to answer with what.
abbrev pub Decision : Type 0
Decision = Option (Option VllmServer × MessageData)

-- The part that the two callbacks share: the policy on the chosen server, then the answer's content.
unfoldable pub consult_policy :
    IncomingMessage → VllmServer → Option Float → Option ℕ → Option String → Rpc Decision
consult_policy m s score priority target = do
  settings ← gets (λ w. w.rpc.settings)
  policy ← gets (λ w. w.rpc.quality_of_service_policy)
  ids ← parallel_requests s
  default_exchange
  accepted ← io (
      apply_policy policy settings.best_priority score (length ids) s.max_parallel_requests m target
        (some settings.metrics_refresh_rate))
  if accepted
      then pure (some (some s, server_params settings m s (length ids) priority score))
      else pure none

-- The body of the first `try` of `on_message_callback`.
unfoldable pub choose_and_consult : ℕ → IncomingMessage → Rpc Decision
choose_and_consult pick m = do
  chosen ← with_strategy (Strategy.choose_server pick)
  handler ← gets (λ w. w.rpc.priority_handler)
  priority ← lift (apply_priority handler m.priority)
  consult_policy m chosen.0 chosen.1 priority none

-- `except ServerNotFound`
abbrev pub when_not_found : IncomingMessage → Exception → Rpc Decision
when_not_found m server_not_found = do
  settings ← gets (λ w. w.rpc.settings)
  pure (some (none, busy_params settings m))
when_not_found m e = raise e

-- `if vllm_server`
abbrev pub register : IncomingMessage → Option VllmServer → Rpc Unit
register m none = pure tt
register m (some s) = do
  add_request s (str m.correlation_id)
  io (emit (expire_task s (str m.correlation_id)))

-- The second `try`, which passes every exception on.
unfoldable pub send_answer : Broker → IncomingMessage → Option VllmServer → MessageData → Rpc Unit
send_answer broker m s params = do
  default_exchange
  io (publish broker (answer m params) m.reply_to)
  io (ack broker m)
  register m s

abbrev pub conclude : Broker → IncomingMessage → Decision → Rpc Unit
conclude broker m none = pure tt
conclude broker m (some (s, params)) = send_answer broker m s params

-- `on_message_callback` up to its first `await`.
abbrev pub decide : ℕ → IncomingMessage → Rpc Decision
decide pick m = try_except (choose_and_consult pick m) (when_not_found m)

unfoldable pub on_message_callback : Broker → ℕ → IncomingMessage → Rpc Unit
on_message_callback broker pick m = do decision ← decide pick m; conclude broker m decision
