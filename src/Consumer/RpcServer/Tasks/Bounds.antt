-- ===== src/Consumer/RpcServer/Tasks/Bounds.antt =====
-- By how many requests the callbacks may go over what a server takes, when they interleave.
use aristote_dispatcher.Common.{
  ℕ, if◌then◌else◌, ◌+◌, ◌<◌, ltb, ltb→lt, ◌≡◌, refl, subst, inl, inr, String, string_eq, false,
  some, List, [], ◌∷◌, option_eq, arith, length, All, Bool-cases, Option-cases,
}
use aristote_dispatcher.Common.Dict.{
  lookup, insert, discard, length-discard, lookup-insert_cases, All-lookup,
}
use aristote_dispatcher.Common.Exec.{Result}
use aristote_dispatcher.Consumer.Broker.{Broker}
use aristote_dispatcher.Consumer.Exceptions.{Exception}
use aristote_dispatcher.Consumer.Message.{IncomingMessage}
use aristote_dispatcher.Consumer.Policy.{is_urgent}
use aristote_dispatcher.Consumer.Server.{VllmServer, server_eq}
use aristote_dispatcher.Consumer.RpcServer.Answer.{Decision, decide}
use aristote_dispatcher.Consumer.RpcServer.Callbacks.{decide_private, on_completion_callback}
use aristote_dispatcher.Consumer.RpcServer.Completion.{
  without, completion_cases, expire_request_lem, expire_uncounted,
}
use aristote_dispatcher.Consumer.RpcServer.Fate.{counters}
use aristote_dispatcher.Consumer.RpcServer.InFlight.{FitsServer, IsBounded}
use aristote_dispatcher.Consumer.RpcServer.State.{World}
use aristote_dispatcher.Consumer.RpcServer.Tasks.{
  Machine, begin, Event, arrival, private_arrival, resumption, completion, expiry, pinged, measured,
  with_ping, with_metrics, step, run,
}
use aristote_dispatcher.Consumer.RpcServer.Tasks.Count.{pending}
use aristote_dispatcher.Consumer.RpcServer.Tasks.Decided.{
  Decided, decide-Decided, decide_private-Decided,
}
use aristote_dispatcher.Consumer.RpcServer.Tasks.Sequential.{idle}
use aristote_dispatcher.Consumer.RpcServer.Tasks.Near.{
  IsDeferrable, IsNear, moved_IsNear, decided_IsNear,
}
use aristote_dispatcher.Consumer.RpcServer.Tasks.Resume.{advance-IsNear}

module _ (best slots : ℕ) where
  -- The request that is taken off a counter.
  taken_off :
      (c : Machine) (w : World) (s : VllmServer) (id : String) (ids : List String)
      → lookup s (counters c.world) ≡ some ids
      → w.rpc ≡ (without c.world s id ids).rpc
      → IsNear best slots c
      → IsNear best slots (record c { world = w })
  taken_off c w s id ids counted same n =
      moved_IsNear best slots c (record c { world = w })
        (insert s (discard id ids) (counters c.world)) c.world.rpc.strategy n same
        (λ s' ids' new.
          elim (lookup-insert_cases s s' (discard id ids) ids' (counters c.world) new) [
            | inr before ↦ n.near s' ids' before
            | inl (e, fewer) ↦
                let here : length (discard id ids) + pending s c.tasks
                    < s.max_parallel_requests + slots =
                  omega (arith, length-discard {0} id ids, n.near s ids counted) in
                subst (λ x. length x + pending s' c.tasks < s'.max_parallel_requests + slots) fewer
                  (subst
                    (λ x.
                      length (discard id ids) + pending x c.tasks < x.max_parallel_requests + slots)
                    e here)
          ])

  arrived :
      (c : Machine) (m : IncomingMessage) (out : Result Exception Decision × World)
      → is_urgent best m.priority ≡ false
      → Decided m c.world out
      → IsNear best slots c
      → IsNear best slots (if ltb (length c.tasks) slots then begin m c.tasks out else c)
  arrived c m (r, w) calm decided n = elim (Bool-cases (ltb (length c.tasks) slots)) [
    | inr full ↦ rw full n
    | inl few ↦
        rw few
          (decided_IsNear best slots c m r w calm (ltb→lt (length c.tasks) slots few) decided n)
  ]

  step-IsNear :
      (broker : Broker) (e : Event) (c : Machine)
      → IsDeferrable best e
      → IsNear best slots c
      → IsNear best slots (step broker slots e c)
  unfolding step
  step-IsNear broker (arrival pick m) c calm n =
      arrived c m (decide pick m c.world) calm (decide-Decided pick m c.world) n
  step-IsNear broker (private_arrival pick m) c calm n =
      arrived c m (decide_private pick m c.world) calm (decide_private-Decided pick m c.world) n
  step-IsNear broker (resumption i) c calm n = advance-IsNear best slots broker c i n
  step-IsNear broker (completion m) c calm n = elim (completion_cases broker m c.world) [
    | inl same ↦ rw same n
    | inr (s, id, ids, counted, e, _) ↦
        taken_off c (on_completion_callback broker m c.world).1 s id ids counted e n
  ]
  step-IsNear broker (expiry s id) c calm n = elim (Option-cases (lookup s (counters c.world))) [
    | inl uncounted ↦ rw (expire_uncounted s id c.world uncounted) n
    | inr (ids, counted) ↦
        rw (expire_request_lem s id c.world ids counted).0
          (taken_off c (without c.world s id ids) s id ids counted refl n)
  ]
  step-IsNear broker (pinged ping) c calm n =
      moved_IsNear best slots c (record c { world = with_ping ping c.world }) (counters c.world) _ n
        refl n.near
  step-IsNear broker (measured url fetch) c calm n =
      moved_IsNear best slots c (record c { world = with_metrics url fetch c.world })
        (counters c.world) _ n refl n.near

  run-IsNear :
      (broker : Broker) (es : List Event) (c : Machine)
      → All (IsDeferrable best) es
      → IsNear best slots c
      → IsNear best slots (run broker slots es c)
  unfolding run
  run-IsNear broker [] c calm n = n
  run-IsNear broker (e ∷ es) c calm n =
      run-IsNear broker es (step broker slots e c) calm.1 (step-IsNear broker e c calm.0 n)

  idle-IsNear : (w : World) → 0 < slots → IsBounded best w → IsNear best slots (idle w)
  unfolding pending
  idle-IsNear w some_slot b = record {
    threshold = b.threshold;
    policy = b.policy;
    best_priority = b.best_priority;
    near = λ s ids counted.
        omega (arith, some_slot, All-lookup FitsServer s ids (counters w) b.fits counted);
  }

-- From a world with the requeue policy on parallel requests, in which no callback is under way and no server
-- counts more requests than it takes, with no message whose priority is at least the best one less one, and
-- with room for `slots` callbacks, one at least, between their start and their end: after any interleaving of
-- the callbacks with completions, expiries, pings and rounds of the metrics tracker, the requests that count
-- at a server and the callbacks that are about to count one there are together less than what the server takes
-- plus `slots`.
pub run-lt :
    (best slots : ℕ) (broker : Broker) (es : List Event) (w : World) (s : VllmServer)
    (ids : List String)
    → 0 < slots
    → IsBounded best w
    → All (IsDeferrable best) es
    → lookup s (counters (run broker slots es (idle w)).world) ≡ some ids
    → length ids + pending s (run broker slots es (idle w)).tasks < s.max_parallel_requests + slots
run-lt best slots broker es w s ids some_slot b calm counted =
    (run-IsNear best slots broker es (idle w) calm (idle-IsNear best slots w some_slot b)).near s
      ids counted
