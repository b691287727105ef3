-- ===== src/Consumer/RpcServer/Delivery.antt =====
-- The fate of a message under each of the callbacks that answer requests.
use aristote_dispatcher.Common.{
  ℕ, ◌≡◌, refl, ◌⊎◌, inl, inr, String, string_eq, Bool, true, false, Option, none, List,
}
use aristote_dispatcher.Common.Exec.{handle, Result, ok, raised, Result-cases, try_except, ◌>>=◌}
use aristote_dispatcher.Common.Float.{Float}
use aristote_dispatcher.Consumer.Broker.{Broker}
use aristote_dispatcher.Consumer.Exceptions.{Exception, server_not_found}
use aristote_dispatcher.Consumer.Message.{IncomingMessage}
use aristote_dispatcher.Consumer.Priority.{apply_priority}
use aristote_dispatcher.Consumer.Server.{VllmServer, server_eq}
use aristote_dispatcher.Consumer.Strategy
use aristote_dispatcher.Consumer.RpcServer.Answer.{
  consult_policy, choose_and_consult, when_not_found, conclude, on_message_callback,
}
use aristote_dispatcher.Consumer.RpcServer.Callbacks.{
  decide_private, serve_private, swallow, server_specific_callback, load, field, target_requeue,
}
use aristote_dispatcher.Consumer.RpcServer.Duplicates.{choose_among_duplicates, matching_servers}
use aristote_dispatcher.Consumer.RpcServer.Consult.{consult_policy_cases}
use aristote_dispatcher.Consumer.RpcServer.State.{World}
use aristote_dispatcher.Consumer.RpcServer.Fate.{
  Fate, admitted, busy, deferred, failed, send_server, send_busy, conclude_fate,
}

-- Fate does not depend on the strategy's own state.
with_strategy-Fate :
    (general : Bool) (m : IncomingMessage) (target : Option String) (w : World)
    (strategy : Strategy.Strategy) {out : Result Exception Unit × World}
    → Fate general m target (record w { rpc = record w.rpc { strategy = strategy } }) out
    → Fate general m target w out
with_strategy-Fate general m target w strategy
      (admitted st s score priority ids counted allowed e t c) =
    admitted st s score priority ids counted allowed e t c
with_strategy-Fate general m target w strategy (busy st g e t c) = busy st g e t c
with_strategy-Fate general m target w strategy (deferred st e t c) = deferred st e t c
with_strategy-Fate general m target w strategy (failed st x e t c) = failed st x e t c

-- An exception of the first `try` of `on_message_callback`.
excepted_fate :
    (broker : Broker) (m : IncomingMessage) (w : World) (e : Exception)
    → Fate true m none w ((do decision ← when_not_found m e; conclude broker m decision) w)
excepted_fate broker m w server_not_found = send_busy broker m w none
excepted_fate broker m w e = failed w.rpc.strategy e refl (inl refl) refl

consulted_fate :
    (broker : Broker) (m : IncomingMessage) (s : VllmServer) (score : Option Float)
    (priority : Option ℕ) (w : World)
    → Fate true m none w (
        (do
          decision ← try_except (consult_policy m s score priority none) (when_not_found m)
          conclude broker m decision)
          w)
consulted_fate broker m s score priority w = elim (consult_policy_cases m s score priority none w) [
  | inl a ↦
      rw a.decides (send_server broker m w true none s score priority a.ids a.counted a.allowed)
  | inr (inl e) ↦ rw e (deferred w.rpc.strategy refl refl refl)
  | inr (inr (x, e)) ↦ rw e (excepted_fate broker m w x)
]

-- The callback of the model's queue, whatever the broker does and whichever random number is drawn: the
-- message is answered with a server, acknowledged, and counted under it with one expiry task; or it is
-- answered without a server, acknowledged, and nothing is counted; or one task requeues it; or the callback
-- raises, nothing is counted, and the message is not acknowledged, though it may have been answered.
pub on_message_callback-Fate :
    (broker : Broker) (pick : ℕ) (m : IncomingMessage) (w : World)
    → Fate true m none w (on_message_callback broker pick m w)
unfolding on_message_callback choose_and_consult
on_message_callback-Fate broker pick m w =
    let after = (Strategy.choose_server pick w.rpc.strategy).1 in
    let w' = record w { rpc = record w.rpc { strategy = after } } in
    with_strategy-Fate true m none w after
      (elim (Result-cases (Strategy.choose_server pick w.rpc.strategy).0) [
        | inr (e, not_chosen) ↦ rw not_chosen (excepted_fate broker m w' e)
        | inl (chosen, is_chosen) ↦
            elim (Result-cases (apply_priority w.rpc.priority_handler m.priority)) [
              | inr (e, no_priority) ↦ rw (is_chosen, no_priority) (excepted_fate broker m w' e)
              | inl (priority, applied) ↦
                  rw (is_chosen, applied) (consulted_fate broker m chosen.0 chosen.1 priority w')
            ]
      ])

-- The fate of a message of an organization's queue: as above, with the target that its routing mode
-- gives and with no busy answer; or an exception before the policy is asked, and nothing happens.
abbrev pub PrivateFate : IncomingMessage → World → Result Exception Unit × World → Type 0
PrivateFate m w out =
    ((fields : List (String × Option String)) × (target : Option String) × (load m.body ≡ ok fields)
      × (target_requeue (field "routing_mode" fields) w.rpc.queue ≡ ok target)
      × Fate false m target w out)
    ⊎ ((e : Exception) × (out ≡ (raised e, w)))

-- The body of the callback of an organization's queue: the message's fate is one of those of the model's
-- queue, but never a busy answer, with the target that its routing mode gives to a requeue; or it raises
-- before the policy is asked, and the world stays as it was.
pub serve_private-Fate :
    (broker : Broker) (pick : ℕ) (m : IncomingMessage) (w : World)
    → PrivateFate m w (serve_private broker pick m w)
unfolding serve_private decide_private
serve_private-Fate broker pick m w = elim (Result-cases (load m.body)) [
  | inr (e, x) ↦ rw x (inr (e, refl))
  | inl (fields, loaded) ↦ elim (Result-cases (apply_priority w.rpc.priority_handler m.priority)) [
    | inr (e, x) ↦ rw (loaded, x) (inr (e, refl))
    | inl (priority, applied) ↦
        elim (Result-cases (
          choose_among_duplicates pick w.rpc.strategy
            (matching_servers w.rpc.settings.vllm_servers (field "organization" fields)))) [
              | inr (e, x) ↦ rw (loaded, applied, x) (inr (e, refl))
              | inl (chosen, is_chosen) ↦
                  elim (Result-cases (target_requeue (field "routing_mode" fields) w.rpc.queue)) [
                    | inr (e, x) ↦ rw (loaded, applied, is_chosen, x) (inr (e, refl))
                    | inl (target, targeted) ↦
                        rw (loaded, applied, is_chosen, targeted)
                          (inl (
                            fields,
                            target,
                            refl,
                            targeted,
                            conclude_fate broker false m chosen.0 chosen.1 priority target w,
                          ))
                  ]
            ]
  ]
]

swallowed : (r : Result Exception Unit) (w : World) → handle swallow r w ≡ (ok tt, w)
swallowed (ok tt) w = refl
swallowed (raised e) w = refl

-- The callback of an organization's queue swallows every exception and keeps what was done before it.
pub server_specific_callback_lem :
    (broker : Broker) (pick : ℕ) (m : IncomingMessage) (w : World)
    → server_specific_callback broker pick m w ≡ (ok tt, (serve_private broker pick m w).1)
unfolding server_specific_callback
server_specific_callback_lem broker pick m w =
    let (r, w') = serve_private broker pick m w in swallowed r w'
