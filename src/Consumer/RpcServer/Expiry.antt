-- ===== src/Consumer/RpcServer/Expiry.antt =====
-- The expiry tasks of the requests that count.
use mathlib.Core.List.{Mem, mem-append_left, mem-append_right, mem-cons_self}
use aristote_dispatcher.Common.{
  ◌≡◌, refl, ap, inl, inr, String, string_eq, Bool, true, false, Option, none, some, List, [], ◌∷◌,
  Option-cases,
}
use aristote_dispatcher.Common.Dict.{
  lookup, insert, add, discard, contains, lookup-insert_cases, contains-add_cases,
  contains_of_contains-discard,
}
use aristote_dispatcher.Common.Exec.{Result}
use aristote_dispatcher.Consumer.Broker.{Broker, Effect, expire_task}
use aristote_dispatcher.Consumer.Exceptions.{Exception}
use aristote_dispatcher.Consumer.Message.{IncomingMessage}
use aristote_dispatcher.Consumer.Server.{VllmServer, server_eq}
use aristote_dispatcher.Consumer.RpcServer.Answer.{str}
use aristote_dispatcher.Consumer.RpcServer.Callbacks.{on_completion_callback}
use aristote_dispatcher.Consumer.RpcServer.Completion.{
  without, completion_cases, expire_request_lem, expire_uncounted,
}
use aristote_dispatcher.Consumer.RpcServer.Delivery.{
  server_specific_callback_lem, on_message_callback-Fate, serve_private-Fate,
}
use aristote_dispatcher.Consumer.RpcServer.Events.{
  Event, request, private_request, completion, expiry, step, run,
}
use aristote_dispatcher.Consumer.RpcServer.Fate.{Fate, admitted, busy, deferred, failed, counters}
use aristote_dispatcher.Consumer.RpcServer.State.{World, RpcServer}

-- Every request that counts for a server had its expiry task made.
pub record HasExpiry (w : World) : Type 0 where
  pub task :
      (s : VllmServer) (id : String) (ids : List String)
      → lookup s (counters w) ≡ some ids
      → contains id ids ≡ true
      → Mem (expire_task s id) w.trace

abbrev Extends : List Effect → List Effect → Type 0
Extends t t' = (e : Effect) → Mem e t → Mem e t'

kept_HasExpiry :
    (w w' : World)
    → HasExpiry w
    → Extends w.trace w'.trace
    → counters w' ≡ counters w
    → HasExpiry w'
kept_HasExpiry w w' h more same = record {
  task = λ s id ids counted inside. more _ (h.task s id ids (rw same at counted) inside);
}

-- A request that starts to count, with its task.
added_HasExpiry :
    (w w' : World) (s : VllmServer) (id : String) (ids : List String)
    → HasExpiry w
    → Extends w.trace w'.trace
    → Mem (expire_task s id) w'.trace
    → lookup s (counters w) ≡ some ids
    → counters w' ≡ insert s (add id ids) (counters w)
    → HasExpiry w'
added_HasExpiry w w' s id ids h more task counted e = record {
  task = λ s' id' ids' counted' inside.
      elim (lookup-insert_cases s s' (add id ids) ids' (counters w) (rw e at counted')) [
        | inr before ↦ more _ (h.task s' id' ids' before inside)
        | inl (server, added) ↦ elim (contains-add_cases id id' ids (rw (← added) at inside)) [
          | inl new ↦ rw (← server, ← new) task
          | inr old ↦ more _ (h.task s' id' ids (rw server at counted) old)
        ]
      ];
}

removed_HasExpiry :
    (w w' : World) (s : VllmServer) (id : String) (ids : List String)
    → HasExpiry w
    → Extends w.trace w'.trace
    → lookup s (counters w) ≡ some ids
    → counters w' ≡ insert s (discard id ids) (counters w)
    → HasExpiry w'
removed_HasExpiry w w' s id ids h more counted e = record {
  task = λ s' id' ids' counted' inside.
      elim (lookup-insert_cases s s' (discard id ids) ids' (counters w) (rw e at counted')) [
        | inr before ↦ more _ (h.task s' id' ids' before inside)
        | inl (server, removed) ↦ more _ (
            h.task s' id' ids (rw server at counted)
              (contains_of_contains-discard id id' ids (rw (← removed) at inside)))
      ];
}

Fate-HasExpiry :
    (general : Bool) (m : IncomingMessage) (target : Option String) (w : World)
    {out : Result Exception Unit × World}
    → HasExpiry w
    → Fate general m target w out
    → HasExpiry out.1
Fate-HasExpiry general m target w {out} h (admitted st s score priority ids counted allowed e t c) =
    added_HasExpiry w out.1 s (str m.correlation_id) ids h
      (λ x old. rw t (mem-append_left _ (mem-append_left _ (mem-append_left _ old))))
      (rw t (mem-append_right _ mem-cons_self)) counted
      (ap (λ (r : RpcServer). r.current_parallel_requests) c)
Fate-HasExpiry general m target w {out} h (busy st g e t c) =
    kept_HasExpiry w out.1 h (λ x old. rw t (mem-append_left _ (mem-append_left _ old)))
      (ap (λ (r : RpcServer). r.current_parallel_requests) c)
Fate-HasExpiry general m target w {out} h (deferred st e t c) =
    kept_HasExpiry w out.1 h (λ x old. rw t (mem-append_left _ old))
      (ap (λ (r : RpcServer). r.current_parallel_requests) c)
Fate-HasExpiry general m target w {out} h (failed st x e (inl t) c) =
    kept_HasExpiry w out.1 h (λ x old. rw t old)
      (ap (λ (r : RpcServer). r.current_parallel_requests) c)
Fate-HasExpiry general m target w {out} h (failed st x e (inr (params, t)) c) =
    kept_HasExpiry w out.1 h (λ x old. rw t (mem-append_left _ old))
      (ap (λ (r : RpcServer). r.current_parallel_requests) c)

step-HasExpiry :
    (broker : Broker) (e : Event) (w : World) → HasExpiry w → HasExpiry (step broker e w)
unfolding step
step-HasExpiry broker (request pick m) w h =
    Fate-HasExpiry true m none w h (on_message_callback-Fate broker pick m w)
step-HasExpiry broker (private_request pick m) w h =
    rw (server_specific_callback_lem broker pick m w, step)
      (elim (serve_private-Fate broker pick m w) [
        | inl (fields, target, loaded, targeted, fate) ↦ Fate-HasExpiry false m target w h fate
        | inr (e, nothing) ↦ rw nothing h
      ])
step-HasExpiry broker (completion m) w h =
    let w' = (on_completion_callback broker m w).1 in
    elim (completion_cases broker m w) [
      | inl same ↦ rw (same, step) h
      | inr (s, id, ids, counted, e, inl t) ↦
          removed_HasExpiry w w' s id ids h (λ x old. rw t old) counted
            (ap (λ (r : RpcServer). r.current_parallel_requests) e)
      | inr (s, id, ids, counted, e, inr t) ↦
          removed_HasExpiry w w' s id ids h (λ x old. rw t (mem-append_left _ old)) counted
            (ap (λ (r : RpcServer). r.current_parallel_requests) e)
    ]
step-HasExpiry broker (expiry s id) w h = elim (Option-cases (lookup s (counters w))) [
  | inl uncounted ↦ rw (expire_uncounted s id w uncounted, step) h
  | inr (ids, counted) ↦
      rw ((expire_request_lem s id w ids counted).0, step)
        (removed_HasExpiry w (without w s id ids) s id ids h (λ x old. old) counted refl)
]

-- If every request that counts has had its expiry task made, so it is after any sequence of callbacks, each
-- of which ends before the next one starts.
pub run-HasExpiry :
    (broker : Broker) (es : List Event) (w : World) → HasExpiry w → HasExpiry (run broker es w)
unfolding run
run-HasExpiry broker [] w h = h
run-HasExpiry broker (e ∷ es) w h =
    run-HasExpiry broker es (step broker e w) (step-HasExpiry broker e w h)
