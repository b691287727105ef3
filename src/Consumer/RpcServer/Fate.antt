-- ===== src/Consumer/RpcServer/Fate.antt =====
-- What becomes of a message that a callback took from a queue.
use aristote_dispatcher.Common.{
  ℕ, ◌≡◌, refl, ◌⊎◌, inl, inr, String, string_eq, Bool, true, Option, none, some, List, [], ◌∷◌,
  ◌++◌, length, Option-cases, Bool-cases,
}
use aristote_dispatcher.Common.Dict.{lookup, insert, add}
use aristote_dispatcher.Common.Exec.{Result, ok, raised, ◌>>=◌}
use aristote_dispatcher.Common.Float.{Float}
use aristote_dispatcher.Consumer.Broker.{
  Broker, Effect, requeue_task, published, acked, expire_task,
}
use aristote_dispatcher.Consumer.Exceptions.{Exception, rejected, attribute_error}
use aristote_dispatcher.Consumer.Message.{IncomingMessage, MessageData}
use aristote_dispatcher.Consumer.Server.{VllmServer, server_eq}
use aristote_dispatcher.Consumer.Strategy.{Strategy}
use aristote_dispatcher.Consumer.RpcServer.Answer.{
  str, answer, server_params, busy_params, consult_policy, send_answer, conclude,
}
use aristote_dispatcher.Consumer.RpcServer.Consult.{verdict, consult_policy_cases}
use aristote_dispatcher.Consumer.RpcServer.State.{World, RpcServer}

abbrev pub counters : World → List (VllmServer × List String)
counters w = w.rpc.current_parallel_requests

-- The server object with another strategy's state and other counters.
abbrev pub with_state : World → Strategy → List (VllmServer × List String) → RpcServer
with_state w strategy requests = record w.rpc {
  strategy = strategy;
  current_parallel_requests = requests;
}

-- The trace of an answer, the acknowledgement behind it.
abbrev pub answered : List Effect → IncomingMessage → MessageData → List Effect
answered t m params =
    (t ++ published (answer m params) m.reply_to ∷ []) ++ acked m.delivery_tag ∷ []

-- Either the message is answered with a server, acknowledged and counted under that server until its
-- expiry task; or it is answered with no server and acknowledged; or one task requeues it; or the callback
-- raises, with the message not acknowledged and nothing counted. `general` is the model's queue.
pub data Fate (general : Bool) (m : IncomingMessage) (target : Option String) (w : World)
    (out : Result Exception Unit × World) : Type 0 where
  admitted :
      (strategy : Strategy) (s : VllmServer) (score : Option Float) (priority : Option ℕ)
      (ids : List String)
      → lookup s (counters w) ≡ some ids
      → verdict m s score target w ids ≡ (ok true, w.trace)
      → out.0 ≡ ok tt
      → out.1.trace
        ≡ answered w.trace m (server_params w.rpc.settings m s (length ids) priority score)
          ++ expire_task s (str m.correlation_id) ∷ []
      → out.1.rpc ≡ with_state w strategy (insert s (add (str m.correlation_id) ids) (counters w))
      → Fate general m target w out
  busy :
      (strategy : Strategy)
      → general ≡ true
      → out.0 ≡ ok tt
      → out.1.trace ≡ answered w.trace m (busy_params w.rpc.settings m)
      → out.1.rpc ≡ with_state w strategy (counters w)
      → Fate general m target w out
  deferred :
      (strategy : Strategy)
      → out.0 ≡ ok tt
      → out.1.trace
        ≡ w.trace ++ requeue_task m target (some w.rpc.settings.metrics_refresh_rate) ∷ []
      → out.1.rpc ≡ with_state w strategy (counters w)
      → Fate general m target w out
  failed :
      (strategy : Strategy)
      → (e : Exception) → out.0 ≡ raised e
      → (out.1.trace ≡ w.trace)
        ⊎ ((params : MessageData) × (out.1.trace
              ≡ w.trace ++ published (answer m params) m.reply_to ∷ []))
      → out.1.rpc ≡ with_state w strategy (counters w)
      → Fate general m target w out

module _ (broker : Broker) (m : IncomingMessage) (w : World) where
  -- The answer to an accepted message.
  pub send_server :
      (general : Bool) (target : Option String) (s : VllmServer) (score : Option Float)
      (priority : Option ℕ) (ids : List String)
      → lookup s (counters w) ≡ some ids
      → verdict m s score target w ids ≡ (ok true, w.trace)
      → Fate general m target w (
          send_answer broker m
            (some s)
            (server_params w.rpc.settings m s (length ids) priority score)
            w)
  unfolding send_answer
  send_server general target s score priority ids counted allowed =
      let params = server_params w.rpc.settings m s (length ids) priority score in
      elim (Option-cases w.rpc.channel) [
        | inl closed ↦ rw closed (failed w.rpc.strategy attribute_error refl (inl refl) refl)
        | inr (c, live) ↦ elim (Bool-cases (broker.publishes (answer m params) m.reply_to)) [
          | inr no_publish ↦
              rw (live, no_publish) (failed w.rpc.strategy rejected refl (inl refl) refl)
          | inl publishes ↦ elim (Bool-cases (broker.acks m.delivery_tag)) [
            | inr no_ack ↦
                rw (live, publishes, no_ack)
                  (failed w.rpc.strategy rejected refl (inr (params, refl)) refl)
            | inl acks ↦
                rw (live, publishes, acks, counted)
                  (admitted w.rpc.strategy s score priority ids counted allowed refl refl refl)
          ]
        ]
      ]

  pub send_busy :
      (target : Option String)
      → Fate true m target w (send_answer broker m none (busy_params w.rpc.settings m) w)
  unfolding send_answer
  send_busy target =
      let params = busy_params w.rpc.settings m in
      elim (Option-cases w.rpc.channel) [
        | inl closed ↦ rw closed (failed w.rpc.strategy attribute_error refl (inl refl) refl)
        | inr (c, live) ↦ elim (Bool-cases (broker.publishes (answer m params) m.reply_to)) [
          | inr no_publish ↦
              rw (live, no_publish) (failed w.rpc.strategy rejected refl (inl refl) refl)
          | inl publishes ↦ elim (Bool-cases (broker.acks m.delivery_tag)) [
            | inr no_ack ↦
                rw (live, publishes, no_ack)
                  (failed w.rpc.strategy rejected refl (inr (params, refl)) refl)
            | inl acks ↦ rw (live, publishes, acks) (busy w.rpc.strategy refl refl refl refl)
          ]
        ]
      ]

-- The fate of a consulted message.
pub conclude_fate :
    (broker : Broker) (general : Bool) (m : IncomingMessage) (s : VllmServer) (score : Option Float)
    (priority : Option ℕ) (target : Option String) (w : World)
    → Fate general m target w
        ((do decision ← consult_policy m s score priority target; conclude broker m decision) w)
conclude_fate broker general m s score priority target w =
    elim (consult_policy_cases m s score priority target w) [
      | inl a ↦
          rw a.decides
            (send_server broker m w general target s score priority a.ids a.counted a.allowed)
      | inr (inl e) ↦ rw e (deferred w.rpc.strategy refl refl refl)
      | inr (inr (x, e)) ↦ rw e (failed w.rpc.strategy x refl (inl refl) refl)
    ]
