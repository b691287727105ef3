-- ===== src/Consumer/RpcServer/Tasks/Resume.antt =====
-- The bound under a callback that goes on after an `await`, or ends.
use aristote_dispatcher.Common.{
  ℕ, ◌+◌, ◌<◌, ◌≡◌, refl, sym, ap, ◌∙◌, subst, inl, inr, String, string_eq, Option, none, some,
  List, [], ◌∷◌, ◌++◌, option_eq, arith, length, get_elem?, set, remove_at, Option-cases,
}
use aristote_dispatcher.Common.Dict.{lookup, insert, add, length-add, lookup-insert_cases}
use aristote_dispatcher.Common.Exec.{Result, ok, raised}
use aristote_dispatcher.Consumer.Broker.{Broker, Effect, expire_task, publish, ack}
use aristote_dispatcher.Consumer.Exceptions.{Exception}
use aristote_dispatcher.Consumer.Server.{VllmServer, server_eq}
use aristote_dispatcher.Consumer.RpcServer.Answer.{str, answer, register}
use aristote_dispatcher.Consumer.RpcServer.Fate.{counters}
use aristote_dispatcher.Consumer.RpcServer.State.{World, RpcServer, put_requests, put_trace}
use aristote_dispatcher.Consumer.RpcServer.Tasks.{
  Stage, publishing, acking, Task, Machine, published, acknowledged, advance_from, advance,
}
use aristote_dispatcher.Consumer.RpcServer.Tasks.Count.{
  weight, pending, weight_self, pending-remove_at, pending-set,
}
use aristote_dispatcher.Consumer.RpcServer.Tasks.Near.{Near, IsNear, moved_IsNear}

module _ (best slots : ℕ) where
  -- A callback that ends without counting.
  dropped :
      (c : Machine) (i : ℕ) (t : Task) (w : World)
      → get_elem? c.tasks i ≡ some t
      → w.rpc ≡ c.world.rpc
      → IsNear best slots c
      → IsNear best slots (record { world = w; tasks = remove_at c.tasks i })
  dropped c i t w found same n =
      moved_IsNear best slots c (record { world = w; tasks = remove_at c.tasks i })
        (counters c.world) c.world.rpc.strategy n same
        (λ s ids counted.
          omega (arith, pending-remove_at s c.tasks i t found, n.near s ids counted))

  -- One that counts, and then ends.
  counted_Near :
      (requests : List (VllmServer × List String)) (tasks : List Task) (i : ℕ) (t : Task)
      (s : VllmServer) (id : String) (ids : List String)
      → get_elem? tasks i ≡ some t
      → t.server ≡ some s
      → lookup s requests ≡ some ids
      → Near slots requests tasks
      → Near slots (insert s (add id ids) requests) (remove_at tasks i)
  counted_Near requests tasks i t s id ids found mine old near = λ s' ids' new.
      elim (lookup-insert_cases s s' (add id ids) ids' requests new) [
        | inr before ↦ omega (arith, pending-remove_at s' tasks i t found, near s' ids' before)
        | inl (same, added) ↦
            let own : weight s t.server ≡ 1 = ap (weight s) mine ∙ weight_self s in
            let here : length (add id ids) + pending s (remove_at tasks i)
                < s.max_parallel_requests + slots =
              omega (
                arith,
                own,
                length-add {0} id ids,
                pending-remove_at s tasks i t found,
                near s ids old,
              ) in
            subst
              (λ x. length x + pending s' (remove_at tasks i) < s'.max_parallel_requests + slots)
              added
              (subst
                (λ x.
                  length (add id ids) + pending x (remove_at tasks i)
                  < x.max_parallel_requests + slots)
                same here)
      ]

  registered :
      (c : Machine) (i : ℕ) (t : Task) (o : Option VllmServer) (w : World)
      → get_elem? c.tasks i ≡ some t
      → t.server ≡ o
      → w.rpc ≡ c.world.rpc
      → IsNear best slots c
      → IsNear best slots
          (record { world = (register t.message o w).1; tasks = remove_at c.tasks i })
  registered c i t none w found mine same n = dropped c i t w found same n
  registered c i t (some s) w found mine same n =
      elim (Option-cases (lookup s w.rpc.current_parallel_requests)) [
        | inl uncounted ↦ rw uncounted (dropped c i t w found same n)
        | inr (ids, old) ↦
            let id = str t.message.correlation_id in
            let requests : lookup s (counters c.world) ≡ some ids =
              ap (λ (r : RpcServer). lookup s r.current_parallel_requests) (sym same) ∙ old in
            let next : Machine = record {
              world = (record {
                rpc = put_requests s (add id ids) w.rpc;
                trace = w.trace ++ expire_task s id ∷ [];
              });
              tasks = remove_at c.tasks i;
            } in
            rw old (
              moved_IsNear best slots c next (insert s (add id ids) (counters c.world))
                c.world.rpc.strategy n (ap (put_requests s (add id ids)) same)
                (counted_Near (counters c.world) c.tasks i t s id ids found mine requests n.near))
      ]

  published_IsNear :
      (c : Machine) (i : ℕ) (t : Task) (out : Result Exception Unit × List Effect)
      → get_elem? c.tasks i ≡ some t
      → IsNear best slots c
      → IsNear best slots (published i t c (put_trace c.world out))
  published_IsNear c i t (raised e, trace) found n =
      dropped c i t (record c.world { trace = trace }) found refl n
  published_IsNear c i t (ok u, trace) found n =
      let t' : Task = record t { stage = acking } in
      let next : Machine = record {
        world = (record c.world { trace = trace });
        tasks = set c.tasks i t';
      } in
      moved_IsNear best slots c next (counters c.world) c.world.rpc.strategy n refl
        (λ s ids counted.
          omega (arith, pending-set s c.tasks i t t' found refl, n.near s ids counted))

  acknowledged_IsNear :
      (c : Machine) (i : ℕ) (t : Task) (out : Result Exception Unit × List Effect)
      → get_elem? c.tasks i ≡ some t
      → IsNear best slots c
      → IsNear best slots (acknowledged i t c (put_trace c.world out))
  acknowledged_IsNear c i t (raised e, trace) found n =
      dropped c i t (record c.world { trace = trace }) found refl n
  acknowledged_IsNear c i t (ok u, trace) found n =
      registered c i t t.server (record c.world { trace = trace }) found refl refl n

  advance_from-IsNear :
      (broker : Broker) (c : Machine) (i : ℕ) (t : Task) (stage : Stage)
      → get_elem? c.tasks i ≡ some t
      → IsNear best slots c
      → IsNear best slots (advance_from broker i t c stage)
  advance_from-IsNear broker c i t publishing found n =
      published_IsNear c i t
        (publish broker (answer t.message t.params) t.message.reply_to c.world.trace) found n
  advance_from-IsNear broker c i t acking found n =
      acknowledged_IsNear c i t (ack broker t.message c.world.trace) found n

  pub advance-IsNear :
      (broker : Broker) (c : Machine) (i : ℕ)
      → IsNear best slots c
      → IsNear best slots (advance broker i c)
  unfolding advance
  advance-IsNear broker c i n = elim (Option-cases (get_elem? c.tasks i)) [
    | inl gone ↦ rw gone n
    | inr (t, found) ↦ rw found (advance_from-IsNear broker c i t t.stage found n)
  ]
