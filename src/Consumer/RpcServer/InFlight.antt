-- ===== src/Consumer/RpcServer/InFlight.antt =====
-- The requests under way at each server, over any sequence of callbacks. A callback counts as one step.
use aristote_dispatcher.Common.{
  ℕ, ◌≤◌, ◌<◌, ◌≡◌, refl, sym, ap, ◌∙◌, subst, inl, inr, String, string_eq, Bool, true, false,
  Option, none, some, List, [], ◌∷◌, arith, length, All, leb, leb→le, Bool-cases, Option-cases,
}
use aristote_dispatcher.Common.Dict.{
  lookup, insert, add, discard, All-insert, All-lookup, length-add, length-discard,
}
use aristote_dispatcher.Common.Exec.{Result, ok}
use aristote_dispatcher.Common.Float.{Float}
use aristote_dispatcher.Consumer.Broker.{Broker}
use aristote_dispatcher.Consumer.Exceptions.{Exception}
use aristote_dispatcher.Consumer.Message.{IncomingMessage}
use aristote_dispatcher.Consumer.Policy.{parallel_requests_threshold_requeue_policy, is_urgent}
use aristote_dispatcher.Consumer.Policy.Deferral.{parallel_requests_threshold_lem}
use aristote_dispatcher.Consumer.Server.{VllmServer, server_eq}
use aristote_dispatcher.Consumer.Strategy.{Strategy}
use aristote_dispatcher.Consumer.RpcServer.Answer.{str}
use aristote_dispatcher.Consumer.RpcServer.Callbacks.{on_completion_callback}
use aristote_dispatcher.Consumer.RpcServer.Completion.{
  without, completion_cases, expire_request_lem, expire_uncounted,
}
use aristote_dispatcher.Consumer.RpcServer.Consult.{verdict}
use aristote_dispatcher.Consumer.RpcServer.Delivery.{
  server_specific_callback_lem, on_message_callback-Fate, serve_private-Fate,
}
use aristote_dispatcher.Consumer.RpcServer.Fate.{
  Fate, admitted, busy, deferred, failed, counters, with_state,
}
use aristote_dispatcher.Consumer.RpcServer.State.{World, RpcServer}
use aristote_dispatcher.Consumer.RpcServer.Events.{
  Event, request, private_request, completion, expiry, step, run,
}

-- No server has more requests under way than it takes.
abbrev pub FitsServer : VllmServer × List String → Type 0
FitsServer e = length e.1 ≤ e.0.max_parallel_requests

-- The requeue policy on parallel requests is in force, and no server has more requests than it takes.
pub record IsBounded (best : ℕ) (w : World) : Type 0 where
  pub threshold : Option Float
  pub policy :
      w.rpc.quality_of_service_policy ≡ parallel_requests_threshold_requeue_policy threshold
  pub best_priority : w.rpc.settings.best_priority ≡ best
  pub fits : All FitsServer (counters w)

-- A message that the policy does not let through on its priority alone.
abbrev pub IsDeferrable : ℕ → Event → Type 0
IsDeferrable best (request pick m) = is_urgent best m.priority ≡ false
IsDeferrable best (private_request pick m) = is_urgent best m.priority ≡ false
IsDeferrable best (completion m) = Unit
IsDeferrable best (expiry s id) = Unit

module _ (best : ℕ) where
  -- A message that the policy lets through finds room at its server.
  pub verdict_room :
      (m : IncomingMessage) (s : VllmServer) (score : Option Float) (target : Option String)
      (w : World) (ids : List String) (threshold : Option Float)
      → w.rpc.quality_of_service_policy ≡ parallel_requests_threshold_requeue_policy threshold
      → w.rpc.settings.best_priority ≡ best
      → is_urgent best m.priority ≡ false
      → verdict m s score target w ids ≡ (ok true, w.trace)
      → length ids < s.max_parallel_requests
  verdict_room m s score target w ids threshold policy best_priority calm allowed =
      elim (Bool-cases (leb s.max_parallel_requests (length ids))) [
        | inr room ↦ ground arith
        | inl full ↦
            let refused =
              (parallel_requests_threshold_lem best (length ids) s.max_parallel_requests m target
                  (some w.rpc.settings.metrics_refresh_rate) w.trace threshold score).1
                calm (leb→le s.max_parallel_requests (length ids) full) in
            let let_through = rw (policy, best_priority) at allowed in cc (refused, let_through)
      ]

  moved_IsBounded :
      (w w' : World) {requests : List (VllmServer × List String)} {strategy : Strategy}
      → IsBounded best w
      → w'.rpc ≡ with_state w strategy requests
      → All FitsServer requests
      → IsBounded best w'
  moved_IsBounded w w' b e f = record {
    threshold = b.threshold;
    policy = ap (λ (r : RpcServer). r.quality_of_service_policy) e ∙ b.policy;
    best_priority = ap (λ (r : RpcServer). r.settings.best_priority) e ∙ b.best_priority;
    fits = subst (All FitsServer) (sym (ap (λ (r : RpcServer). r.current_parallel_requests) e)) f;
  }

  Fate-IsBounded :
      (general : Bool) (m : IncomingMessage) (target : Option String) (w : World)
      {out : Result Exception Unit × World}
      → is_urgent best m.priority ≡ false
      → IsBounded best w
      → Fate general m target w out
      → IsBounded best out.1
  Fate-IsBounded general m target w {out} calm b
        (admitted st s score priority ids counted allowed e t c) =
      let room =
        verdict_room m s score target w ids b.threshold b.policy b.best_priority calm allowed in
      moved_IsBounded w out.1 b c (
        All-insert FitsServer s (add (str m.correlation_id) ids) (counters w)
          (omega (arith, length-add {0} (str m.correlation_id) ids)) b.fits)
  Fate-IsBounded general m target w {out} calm b (busy st g e t c) =
      moved_IsBounded w out.1 b c b.fits
  Fate-IsBounded general m target w {out} calm b (deferred st e t c) =
      moved_IsBounded w out.1 b c b.fits
  Fate-IsBounded general m target w {out} calm b (failed st x e t c) =
      moved_IsBounded w out.1 b c b.fits

  -- The request that is taken off leaves no server over its bound.
  without_fits :
      (w : World) (s : VllmServer) (id : String) (ids : List String)
      → IsBounded best w
      → lookup s (counters w) ≡ some ids
      → All FitsServer (insert s (discard id ids) (counters w))
  without_fits w s id ids b counted =
      let fitted = All-lookup FitsServer s ids (counters w) b.fits counted in
      All-insert FitsServer s (discard id ids) (counters w)
        (omega (arith, length-discard {0} id ids)) b.fits

  step-IsBounded :
      (broker : Broker) (e : Event) (w : World)
      → IsDeferrable best e
      → IsBounded best w
      → IsBounded best (step broker e w)
  unfolding step
  step-IsBounded broker (request pick m) w calm b =
      Fate-IsBounded true m none w calm b (on_message_callback-Fate broker pick m w)
  step-IsBounded broker (private_request pick m) w calm b =
      rw (server_specific_callback_lem broker pick m w, step)
        (elim (serve_private-Fate broker pick m w) [
          | inl (fields, target, loaded, targeted, fate) ↦
              Fate-IsBounded false m target w calm b fate
          | inr (e, nothing) ↦ rw nothing b
        ])
  step-IsBounded broker (completion m) w calm b = elim (completion_cases broker m w) [
    | inl same ↦ rw (same, step) b
    | inr (s, id, ids, counted, e, _) ↦
        moved_IsBounded w (on_completion_callback broker m w).1 b e
          (without_fits w s id ids b counted)
  ]
  step-IsBounded broker (expiry s id) w calm b = elim (Option-cases (lookup s (counters w))) [
    | inl uncounted ↦ rw (expire_uncounted s id w uncounted, step) b
    | inr (ids, counted) ↦
        rw ((expire_request_lem s id w ids counted).0, step)
          (moved_IsBounded w (without w s id ids) b refl (without_fits w s id ids b counted))
  ]

  -- With the requeue policy on parallel requests, and no message whose priority is at least the best one less
  -- one: if no server has more requests under way than it takes, none has after any sequence of callbacks,
  -- each of which ends before the next one starts.
  pub run-IsBounded :
      (broker : Broker) (es : List Event) (w : World)
      → All (IsDeferrable best) es
      → IsBounded best w
      → IsBounded best (run broker es w)
  unfolding run
  run-IsBounded broker [] w calm b = b
  run-IsBounded broker (e ∷ es) w calm b =
      run-IsBounded broker es (step broker e w) calm.1 (step-IsBounded broker e w calm.0 b)
