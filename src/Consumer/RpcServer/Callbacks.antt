-- ===== src/Consumer/RpcServer/Callbacks.antt =====
-- rpc_server.py: the callbacks of the completion queue and of the queues of the organizations.
use aristote_dispatcher.Common.{
  ℕ, String, string_eq, Option, none, some, List, [], ◌∷◌, ◌==◌, option_eq, if◌then◌else◌,
}
use aristote_dispatcher.Common.Dict.{get_or}
use aristote_dispatcher.Common.Exec.{
  Result, ok, raised, pure, raise, lift, gets, try_except, ◌>>=◌, ◌>>◌,
}
use aristote_dispatcher.Common.Float.{float_eq}
use aristote_dispatcher.Consumer.Broker.{Broker, ack}
use aristote_dispatcher.Consumer.Exceptions.{
  Exception, unknown_local_priority_model, key_error, json_decode_error,
}
use aristote_dispatcher.Consumer.Message.{Body, raw, object, llm_params, IncomingMessage}
use aristote_dispatcher.Consumer.Priority.{apply_priority}
use aristote_dispatcher.Consumer.Server.{VllmServer, server_eq}
use aristote_dispatcher.Consumer.RpcServer.State.{Rpc, io, parallel_requests, discard_request}
use aristote_dispatcher.Consumer.RpcServer.Answer.{Decision, str, consult_policy, conclude}
use aristote_dispatcher.Consumer.RpcServer.Duplicates.{choose_among_duplicates, matching_servers}

-- `json.loads(message.body)`; none of the keys that are read is one of `MessageData`.
abbrev pub load : Body → Result Exception (List (String × Option String))
load (raw text) = raised json_decode_error
load (object fields) = ok fields
load (llm_params params) = ok []

-- `data.get(key)`
abbrev pub field : String → List (String × Option String) → Option String
field key fields = get_or key none fields

abbrev pub swallow : Exception → Rpc Unit
swallow e = pure tt

-- The last server with that url: the loop has no `break`.
unfoldable pub used_server : List VllmServer → Option String → Option VllmServer
used_server [] url = none
used_server (s ∷ servers) url =
    let rest = used_server servers url in
    elim rest [ some t ↦ some t | none ↦ if some s.url == url then some s else none ]

abbrev pub discard_from : Option VllmServer → String → Rpc Unit
discard_from none id = pure tt
discard_from (some s) id = discard_request s id

-- The log line counts the requests of `used_server`, also where that is None: a KeyError.
abbrev pub count_for_log : Option VllmServer → Rpc (List String)
count_for_log none = raise key_error
count_for_log (some s) = parallel_requests s

unfoldable pub on_completion_callback : Broker → IncomingMessage → Rpc Unit
on_completion_callback broker m =
    try_except
      (do
        fields ← lift (load m.body)
        servers ← gets (λ w. w.rpc.settings.vllm_servers)
        let used = used_server servers (field "server" fields)
        discard_from used (str (field "message_id" fields))
        count_for_log used
        io (ack broker m))
      swallow

-- Where a deferred message of that routing mode goes: to the model's queue, or back.
unfoldable pub target_requeue : Option String → Option String → Result Exception (Option String)
target_requeue mode queue =
    if mode == some "private-first"
    then ok queue
    else if mode == some "private-only"
    then ok none
    else raised (unknown_local_priority_model mode)

-- The body of `server_specific_callback` up to its first `await`.
unfoldable pub decide_private : ℕ → IncomingMessage → Rpc Decision
decide_private pick m = do
  fields ← lift (load m.body)
  handler ← gets (λ w. w.rpc.priority_handler)
  priority ← lift (apply_priority handler m.priority)
  servers ← gets (λ w. w.rpc.settings.vllm_servers)
  strategy ← gets (λ w. w.rpc.strategy)
  chosen ← lift (
      choose_among_duplicates pick strategy
        (matching_servers servers (field "organization" fields)))
  queue ← gets (λ w. w.rpc.queue)
  target ← lift (target_requeue (field "routing_mode" fields) queue)
  consult_policy m chosen.0 chosen.1 priority target

-- The body of `server_specific_callback`.
unfoldable pub serve_private : Broker → ℕ → IncomingMessage → Rpc Unit
serve_private broker pick m = do decision ← decide_private pick m; conclude broker m decision

unfoldable pub server_specific_callback : Broker → ℕ → IncomingMessage → Rpc Unit
server_specific_callback broker pick m = try_except (serve_private broker pick m) swallow
