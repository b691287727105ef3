-- ===== src/Consumer/RpcServer/Tasks/Near.antt =====
-- The bound on what counts at a server and what is about to count there, when the callbacks interleave, under
-- a callback up to its first `await`.
use aristote_dispatcher.Common.{
  ℕ, ◌+◌, ◌<◌, ◌≡◌, refl, sym, ap, ◌∙◌, subst, inl, inr, String, string_eq, Bool, false, Option,
  none, some, List, ◌==◌, option_eq, arith, length, Bool-cases,
}
use aristote_dispatcher.Common.Dict.{lookup}
use aristote_dispatcher.Common.Exec.{Result}
use aristote_dispatcher.Common.Float.{Float}
use aristote_dispatcher.Consumer.Exceptions.{Exception}
use aristote_dispatcher.Consumer.Message.{IncomingMessage, MessageData}
use aristote_dispatcher.Consumer.Policy.{parallel_requests_threshold_requeue_policy, is_urgent}
use aristote_dispatcher.Consumer.Server.{VllmServer, server_eq, server_beq_iff}
use aristote_dispatcher.Consumer.Strategy.{Strategy}
use aristote_dispatcher.Consumer.RpcServer.Answer.{Decision}
use aristote_dispatcher.Consumer.RpcServer.Fate.{counters, with_state}
use aristote_dispatcher.Consumer.RpcServer.InFlight.{verdict_room}
use aristote_dispatcher.Consumer.RpcServer.State.{World, RpcServer}
use aristote_dispatcher.Consumer.RpcServer.Tasks.{
  publishing, Task, Machine, suspend, begin, Event, arrival, private_arrival, resumption,
  completion, expiry, pinged, measured,
}
use aristote_dispatcher.Consumer.RpcServer.Tasks.Count.{
  weight, pending, weight-le, pending-length, pending-snoc,
}
use aristote_dispatcher.Consumer.RpcServer.Tasks.Decided.{Decided, chosen, unserved, ended, failed}

abbrev pub IsDeferrable : ℕ → Event → Type 0
IsDeferrable best (arrival pick m) = is_urgent best m.priority ≡ false
IsDeferrable best (private_arrival pick m) = is_urgent best m.priority ≡ false
IsDeferrable best (resumption i) = Unit
IsDeferrable best (completion m) = Unit
IsDeferrable best (expiry s id) = Unit
IsDeferrable best (pinged ping) = Unit
IsDeferrable best (measured url fetch) = Unit

-- The requests that count at a server, and the callbacks that are about to count one there.
abbrev pub Near : ℕ → List (VllmServer × List String) → List Task → Type 0
Near slots requests tasks =
    (s : VllmServer) (ids : List String)
    → lookup s requests ≡ some ids
    → length ids + pending s tasks < s.max_parallel_requests + slots

pub record IsNear (best slots : ℕ) (c : Machine) : Type 0 where
  pub threshold : Option Float
  pub policy :
      c.world.rpc.quality_of_service_policy ≡ parallel_requests_threshold_requeue_policy threshold
  pub best_priority : c.world.rpc.settings.best_priority ≡ best
  pub near : Near slots (counters c.world) c.tasks

found_same :
    (s s' : VllmServer) (requests : List (VllmServer × List String)) (ids ids' : List String)
    → s ≡ s'
    → lookup s requests ≡ some ids
    → lookup s' requests ≡ some ids'
    → ids ≡ ids'
found_same s s' requests ids ids' e h h' =
    let both : some ids ≡ some ids' = sym h ∙ ap (λ x. lookup x requests) e ∙ h' in cc

module _ (best slots : ℕ) where
  pub moved_IsNear :
      (c c' : Machine) (requests : List (VllmServer × List String)) (strategy : Strategy)
      → IsNear best slots c
      → c'.world.rpc ≡ with_state c.world strategy requests
      → Near slots requests c'.tasks
      → IsNear best slots c'
  moved_IsNear c c' requests strategy n e near = record {
    threshold = n.threshold;
    policy = ap (λ (r : RpcServer). r.quality_of_service_policy) e ∙ n.policy;
    best_priority = ap (λ (r : RpcServer). r.settings.best_priority) e ∙ n.best_priority;
    near =
        subst (λ q. Near slots q c'.tasks)
          (sym (ap (λ (r : RpcServer). r.current_parallel_requests) e)) near;
  }

  -- A callback that was let through to a server with room, while fewer than `slots` wait.
  suspended :
      (c : Machine) (m : IncomingMessage) (s : VllmServer) (params : MessageData)
      (ids : List String) (channel : Option Bool)
      → length c.tasks < slots
      → lookup s (counters c.world) ≡ some ids
      → length ids < s.max_parallel_requests
      → Near slots (counters c.world) c.tasks
      → Near slots (counters c.world) (suspend channel m (some s) params c.tasks)
  suspended c m s params ids none few counted room near = near
  suspended c m s params ids (some closed) few counted room near = λ s' ids' counted'.
      let t : Task = record { message = m; server = some s; params = params; stage = publishing } in
      elim (Bool-cases (some s == some s')) [
        | inl same ↦
            let e = (server_beq_iff s s').0 same in
            let found : ids ≡ ids' =
              found_same s s' (counters c.world) ids ids' e counted counted' in
            omega (
              arith,
              room,
              few,
              weight-le s' (some s),
              pending-snoc s' c.tasks t,
              pending-length s' c.tasks,
              ap length found,
              ap (λ (x : VllmServer). x.max_parallel_requests) e,
            )
        | inr other ↦
            let none_more : weight s' (some s) ≡ 0 = rw other refl in
            omega (arith, none_more, pending-snoc s' c.tasks t, near s' ids' counted')
      ]

  unserved_Near :
      (requests : List (VllmServer × List String)) (tasks : List Task) (m : IncomingMessage)
      (params : MessageData) (channel : Option Bool)
      → Near slots requests tasks
      → Near slots requests (suspend channel m none params tasks)
  unserved_Near requests tasks m params none near = near
  unserved_Near requests tasks m params (some closed) near = λ s ids counted.
      let t : Task = record { message = m; server = none; params = params; stage = publishing } in
      omega (arith, pending-snoc s tasks t, near s ids counted)

  pub decided_IsNear :
      (c : Machine) (m : IncomingMessage) (r : Result Exception Decision) (w : World)
      → is_urgent best m.priority ≡ false
      → length c.tasks < slots
      → Decided m c.world (r, w)
      → IsNear best slots c
      → IsNear best slots (begin m c.tasks (r, w))
  decided_IsNear c m r w calm few (chosen st s params score target ids counted allowed e same) n =
      let room =
        verdict_room best m s score target c.world ids n.threshold n.policy n.best_priority calm
          allowed in
      let next : Machine = record {
        world = w;
        tasks = suspend w.rpc.channel m (some s) params c.tasks;
      } in
      rw e (
        moved_IsNear c next (counters c.world) st n same
          (suspended c m s params ids w.rpc.channel few counted room n.near))
  decided_IsNear c m r w calm few (unserved st params e same) n =
      let next : Machine = record {
        world = w;
        tasks = suspend w.rpc.channel m none params c.tasks;
      } in
      rw e (
        moved_IsNear c next (counters c.world) st n same
          (unserved_Near (counters c.world) c.tasks m params w.rpc.channel n.near))
  decided_IsNear c m r w calm few (ended st e same) n =
      let next : Machine = record { world = w; tasks = c.tasks } in
      rw e (moved_IsNear c next (counters c.world) st n same n.near)
  decided_IsNear c m r w calm few (failed st x e same) n =
      let next : Machine = record { world = w; tasks = c.tasks } in
      rw e (moved_IsNear c next (counters c.world) st n same n.near)
