-- ===== src/Consumer/RpcServer/Consult.antt =====
-- What the part that the callbacks share does to the state: the policy on the server that was chosen.
use aristote_dispatcher.Common.{
  ℕ, ◌≡◌, ◌⊎◌, inl, inr, String, Bool, true, Option, none, some, List, [], ◌∷◌, ◌++◌, length,
  Option-cases,
}
use aristote_dispatcher.Common.Dict.{lookup}
use aristote_dispatcher.Common.Exec.{Result, ok, raised}
use aristote_dispatcher.Common.Float.{Float}
use aristote_dispatcher.Consumer.Broker.{Effect, requeue_task}
use aristote_dispatcher.Consumer.Exceptions.{Exception, key_error, attribute_error}
use aristote_dispatcher.Consumer.Message.{IncomingMessage}
use aristote_dispatcher.Consumer.Policy.{apply_policy}
use aristote_dispatcher.Consumer.Policy.Deferral.{apply_policy_trace}
use aristote_dispatcher.Consumer.Server.{VllmServer, server_eq}
use aristote_dispatcher.Consumer.RpcServer.Answer.{Decision, server_params, consult_policy}
use aristote_dispatcher.Consumer.RpcServer.State.{World}

-- The world with one effect more.
abbrev pub with_effect : World → Effect → World
with_effect w e = record w { trace = w.trace ++ e ∷ [] }

-- What the policy says of a message for that server, with those requests under way.
abbrev pub verdict :
    IncomingMessage
    → VllmServer
    → Option Float
    → Option String
    → World
    → List String
    → Result Exception Bool × List Effect
verdict m s score target w ids =
    apply_policy w.rpc.quality_of_service_policy w.rpc.settings.best_priority score (length ids)
      s.max_parallel_requests m target (some w.rpc.settings.metrics_refresh_rate) w.trace

module _ (m : IncomingMessage) (s : VllmServer) (score : Option Float) (priority : Option ℕ)
    (target : Option String) (w : World) where
  abbrev consulted : Result Exception Decision × World
  consulted = consult_policy m s score priority target w

  -- The message is let through; its answer counts the requests under way at that server.
  pub record Accepted : Type 0 where
    pub ids : List String
    pub counted : lookup s w.rpc.current_parallel_requests ≡ some ids
    pub allowed : verdict m s score target w ids ≡ (ok true, w.trace)
    pub decides :
        consulted
        ≡ (ok (some (some s, server_params w.rpc.settings m s (length ids) priority score)), w)

  abbrev pub Consulted : Type 0
  Consulted =
      Accepted
      ⊎ (consulted ≡ (
        ok none,
        with_effect w (requeue_task m target (some w.rpc.settings.metrics_refresh_rate)),
      ))
      ⊎ ((e : Exception) × (consulted ≡ (raised e, w)))

  judged :
      (ids : List String)
      → lookup s w.rpc.current_parallel_requests ≡ some ids
      → (c : Bool) → w.rpc.channel ≡ some c
      → Consulted
  unfolding consult_policy
  judged ids e c live =
      elim (apply_policy_trace w.rpc.settings.best_priority (length ids) s.max_parallel_requests m
        target (some w.rpc.settings.metrics_refresh_rate) w.trace w.rpc.quality_of_service_policy
        score) [
          | inl t ↦ inl (record { ids = ids; counted = e; allowed = t; decides = rw (e, live, t) })
          | inr (inl t) ↦ inr (inl (rw (e, live, t)))
          | inr (inr (x, t)) ↦ inr (inr (x, rw (e, live, t)))
        ]

  pub consult_policy_cases : Consulted
  unfolding consult_policy
  consult_policy_cases = elim (Option-cases (lookup s w.rpc.current_parallel_requests)) [
    | inl e ↦ inr (inr (key_error, rw e))
    | inr (ids, e) ↦ elim (Option-cases w.rpc.channel) [
      | inl closed ↦ inr (inr (attribute_error, rw (e, closed)))
      | inr (c, live) ↦ judged ids e c live
    ]
  ]
