-- ===== src/Consumer/RpcServer/Tasks/Decided.antt =====
-- What a callback has decided when it comes to its first `await`.
use aristote_dispatcher.Common.{
  ℕ, inl, inr, string_eq, ◌≡◌, refl, Option, none, some, List, String, true,
}
use aristote_dispatcher.Common.Dict.{lookup}
use aristote_dispatcher.Common.Exec.{Result, ok, raised, Result-cases, try_except}
use aristote_dispatcher.Common.Float.{Float}
use aristote_dispatcher.Consumer.Exceptions.{Exception, server_not_found}
use aristote_dispatcher.Consumer.Message.{IncomingMessage, MessageData}
use aristote_dispatcher.Consumer.Priority.{apply_priority}
use aristote_dispatcher.Consumer.Server.{VllmServer, server_eq}
use aristote_dispatcher.Consumer.Strategy
use aristote_dispatcher.Consumer.RpcServer.Answer.{
  Decision, consult_policy, choose_and_consult, when_not_found, decide,
}
use aristote_dispatcher.Consumer.RpcServer.Callbacks.{decide_private, load, field, target_requeue}
use aristote_dispatcher.Consumer.RpcServer.Consult.{verdict, consult_policy_cases}
use aristote_dispatcher.Consumer.RpcServer.Duplicates.{choose_among_duplicates, matching_servers}
use aristote_dispatcher.Consumer.RpcServer.Fate.{counters, with_state}
use aristote_dispatcher.Consumer.RpcServer.State.{World}

-- Either the policy let the message through to a server, with the requests under way there; or the answer
-- is to name no server; or the callback ends. Nothing is counted yet.
pub data Decided (m : IncomingMessage) (w : World) (out : Result Exception Decision × World)
    : Type 0 where
  chosen :
      (strategy : Strategy.Strategy) (s : VllmServer) (params : MessageData) (score : Option Float)
      (target : Option String) (ids : List String)
      → lookup s (counters w) ≡ some ids
      → verdict m s score target w ids ≡ (ok true, w.trace)
      → out.0 ≡ ok (some (some s, params))
      → out.1.rpc ≡ with_state w strategy (counters w)
      → Decided m w out
  unserved :
      (strategy : Strategy.Strategy) (params : MessageData)
      → out.0 ≡ ok (some (none, params))
      → out.1.rpc ≡ with_state w strategy (counters w)
      → Decided m w out
  ended :
      (strategy : Strategy.Strategy)
      → out.0 ≡ ok none
      → out.1.rpc ≡ with_state w strategy (counters w)
      → Decided m w out
  failed :
      (strategy : Strategy.Strategy) (e : Exception)
      → out.0 ≡ raised e
      → out.1.rpc ≡ with_state w strategy (counters w)
      → Decided m w out

-- The strategy's own state does not matter.
moved :
    (m : IncomingMessage) (w : World) (strategy : Strategy.Strategy)
    {out : Result Exception Decision × World}
    → Decided m (record w { rpc = record w.rpc { strategy = strategy } }) out
    → Decided m w out
moved m w strategy (chosen st s params score target ids counted allowed e r) =
    chosen st s params score target ids counted allowed e r
moved m w strategy (unserved st params e r) = unserved st params e r
moved m w strategy (ended st e r) = ended st e r
moved m w strategy (failed st x e r) = failed st x e r

excepted : (m : IncomingMessage) (w : World) (e : Exception) → Decided m w (when_not_found m e w)
excepted m w server_not_found = unserved w.rpc.strategy _ refl refl
excepted m w e = failed w.rpc.strategy e refl refl

consulted :
    (m : IncomingMessage) (s : VllmServer) (score : Option Float) (priority : Option ℕ)
    (target : Option String) (w : World)
    → Decided m w (consult_policy m s score priority target w)
consulted m s score priority target w = elim (consult_policy_cases m s score priority target w) [
  | inl a ↦
      rw a.decides (chosen w.rpc.strategy s _ score target a.ids a.counted a.allowed refl refl)
  | inr (inl e) ↦ rw e (ended w.rpc.strategy refl refl)
  | inr (inr (x, e)) ↦ rw e (failed w.rpc.strategy x refl refl)
]

tried :
    (m : IncomingMessage) (s : VllmServer) (score : Option Float) (priority : Option ℕ) (w : World)
    → Decided m w (try_except (consult_policy m s score priority none) (when_not_found m) w)
tried m s score priority w = elim (consult_policy_cases m s score priority none w) [
  | inl a ↦ rw a.decides (chosen w.rpc.strategy s _ score none a.ids a.counted a.allowed refl refl)
  | inr (inl e) ↦ rw e (ended w.rpc.strategy refl refl)
  | inr (inr (x, e)) ↦ rw e (excepted m w x)
]

pub decide-Decided : (pick : ℕ) (m : IncomingMessage) (w : World) → Decided m w (decide pick m w)
unfolding choose_and_consult
decide-Decided pick m w =
    let after = (Strategy.choose_server pick w.rpc.strategy).1 in
    let w' = record w { rpc = record w.rpc { strategy = after } } in
    moved m w after (elim (Result-cases (Strategy.choose_server pick w.rpc.strategy).0) [
      | inr (e, not_chosen) ↦ rw not_chosen (excepted m w' e)
      | inl (server, is_chosen) ↦
          elim (Result-cases (apply_priority w.rpc.priority_handler m.priority)) [
            | inr (e, no_priority) ↦ rw (is_chosen, no_priority) (excepted m w' e)
            | inl (priority, applied) ↦
                rw (is_chosen, applied) (tried m server.0 server.1 priority w')
          ]
    ])

pub decide_private-Decided :
    (pick : ℕ) (m : IncomingMessage) (w : World) → Decided m w (decide_private pick m w)
unfolding decide_private
decide_private-Decided pick m w = elim (Result-cases (load m.body)) [
  | inr (e, x) ↦ rw x (failed w.rpc.strategy e refl refl)
  | inl (fields, loaded) ↦ elim (Result-cases (apply_priority w.rpc.priority_handler m.priority)) [
    | inr (e, x) ↦ rw (loaded, x) (failed w.rpc.strategy e refl refl)
    | inl (priority, applied) ↦
        elim (Result-cases (
          choose_among_duplicates pick w.rpc.strategy
            (matching_servers w.rpc.settings.vllm_servers (field "organization" fields)))) [
              | inr (e, x) ↦ rw (loaded, applied, x) (failed w.rpc.strategy e refl refl)
              | inl (server, is_chosen) ↦
                  elim (Result-cases (target_requeue (field "routing_mode" fields) w.rpc.queue)) [
                    | inr (e, x) ↦
                        rw (loaded, applied, is_chosen, x) (failed w.rpc.strategy e refl refl)
                    | inl (target, targeted) ↦
                        rw (loaded, applied, is_chosen, targeted)
                          (consulted m server.0 server.1 priority target w)
                  ]
            ]
  ]
]
