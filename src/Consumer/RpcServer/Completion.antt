-- ===== src/Consumer/RpcServer/Completion.antt =====
-- The callback of the completion queue, and the expiry of a request.
use aristote_dispatcher.Common.{
  ◌≡◌, refl, ◌⊎◌, inl, inr, String, string_eq, Bool, true, false, Option, none, some, List, [], ◌∷◌,
  ◌++◌, arith, Option-cases, Bool-cases, if◌then◌else◌,
}
use aristote_dispatcher.Common.Dict.{
  lookup, insert, discard, lookup-insert_self, contains, contains-discard,
}
use aristote_dispatcher.Common.Exec.{ok, raised, Result-cases}
use aristote_dispatcher.Consumer.Broker.{Broker, acked}
use aristote_dispatcher.Consumer.Exceptions.{key_error}
use aristote_dispatcher.Consumer.Message.{IncomingMessage}
use aristote_dispatcher.Consumer.Server.{VllmServer, server_eq}
use aristote_dispatcher.Consumer.RpcServer.Answer.{str}
use aristote_dispatcher.Consumer.RpcServer.Callbacks.{
  load, field, used_server, on_completion_callback,
}
use aristote_dispatcher.Consumer.RpcServer.Fate.{counters, with_state}
use aristote_dispatcher.Consumer.RpcServer.State.{World, expire_request}

-- The world in which a request no longer counts.
abbrev pub without : World → VllmServer → String → List String → World
without w s id ids = record w {
  rpc = with_state w w.rpc.strategy (insert s (discard id ids) (counters w));
}

abbrev pub with_ack : World → IncomingMessage → World
with_ack w m = record w { trace = w.trace ++ acked m.delivery_tag ∷ [] }

module _ (broker : Broker) (m : IncomingMessage) (w : World)
    (fields : List (String × Option String)) (loaded : load m.body ≡ ok fields) where
  abbrev used : Option VllmServer
  used = used_server w.rpc.settings.vllm_servers (field "server" fields)

  -- A completion that names a server with a counter takes the request off it, and is acknowledged if the
  -- broker takes the acknowledgement.
  pub completion_known :
      (s : VllmServer) (ids : List String)
      → used ≡ some s
      → lookup s (counters w) ≡ some ids
      → on_completion_callback broker m w ≡ (
        ok tt,
        let w' = without w s (str (field "message_id" fields)) ids in
            if broker.acks m.delivery_tag then with_ack w' m else w',
      )
  unfolding on_completion_callback
  completion_known s ids u counted =
      let id = str (field "message_id" fields) in
      elim (Bool-cases (broker.acks m.delivery_tag)) [
        | inl acks ↦
            rw (loaded, u, counted, lookup-insert_self s (discard id ids) (counters w), acks)
        | inr silent ↦
            rw (loaded, u, counted, lookup-insert_self s (discard id ids) (counters w), silent)
      ]

  -- A completion that names no known server is not acknowledged, and nothing changes.
  completion_unknown : used ≡ none → on_completion_callback broker m w ≡ (ok tt, w)
  unfolding on_completion_callback
  completion_unknown u = rw (loaded, u)

-- A request that expires is taken off the counter of its server, if that has one, and no longer found there.
pub expire_request_lem :
    (s : VllmServer) (id : String) (w : World) (ids : List String)
    → lookup s (counters w) ≡ some ids
    → (expire_request s id w ≡ (ok tt, without w s id ids)) × (contains id (discard id ids) ≡ false)
unfolding expire_request
expire_request_lem s id w ids counted =
    (rw counted, ground (arith, contains-discard id id ids, string_eq.decides id id))

-- One request is taken off one counter, and at most the acknowledgement is sent.
abbrev pub TakenOff : World → World → IncomingMessage → Type 0
TakenOff w w' m =
    (s : VllmServer) × (id : String) × (ids : List String) × (lookup s (counters w) ≡ some ids)
    × (w'.rpc ≡ (without w s id ids).rpc)
    × ((w'.trace ≡ w.trace) ⊎ (w'.trace ≡ w.trace ++ acked m.delivery_tag ∷ []))

acked_cases :
    (acks : Bool) (m : IncomingMessage) (w : World)
    → let w' = if acks then with_ack w m else w in
      (w'.rpc ≡ w.rpc) × ((w'.trace ≡ w.trace) ⊎ (w'.trace ≡ w.trace ++ acked m.delivery_tag ∷ []))
acked_cases true m w = (refl, inr refl)
acked_cases false m w = (refl, inl refl)

-- Every completion message takes one request off one counter, with at most its acknowledgement, or changes
-- nothing.
pub completion_cases :
    (broker : Broker) (m : IncomingMessage) (w : World)
    → let w' = (on_completion_callback broker m w).1 in (w' ≡ w) ⊎ TakenOff w w' m
unfolding on_completion_callback
completion_cases broker m w = elim (Result-cases (load m.body)) [
  | inr (e, not_loaded) ↦ rw not_loaded (inl refl)
  | inl (fields, loaded) ↦
      elim (Option-cases (used_server w.rpc.settings.vllm_servers (field "server" fields))) [
        | inl u ↦ rw (loaded, u) (inl refl)
        | inr (s, u) ↦ elim (Option-cases (lookup s (counters w))) [
          | inl uncounted ↦ rw (loaded, u, uncounted) (inl refl)
          | inr (ids, counted) ↦
              let id = str (field "message_id" fields) in
              let done = acked_cases (broker.acks m.delivery_tag) m (without w s id ids) in
              rw (completion_known broker m w fields loaded s ids u counted)
                (inr (s, id, ids, counted, done.0, done.1))
        ]
      ]
]

pub expire_uncounted :
    (s : VllmServer) (id : String) (w : World)
    → lookup s (counters w) ≡ none
    → expire_request s id w ≡ (raised key_error, w)
unfolding expire_request
expire_uncounted s id w uncounted = rw uncounted
