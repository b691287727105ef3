-- ===== src/Consumer/Main/Serving.antt =====
-- The process from its start: the bound on the requests at a server.
use aristote_dispatcher.Common.{
  suc, ◌+◌, ◌≤◌, ◌≡◌, refl, sym, ap, ◌∙◌, subst, String, string_eq, Bool, true, none, some, List,
  [], ◌∷◌, arith, length, All,
}
use aristote_dispatcher.Common.Dict.{lookup, All-insert}
use aristote_dispatcher.Common.Exec.{Result, ok, raised}
use aristote_dispatcher.Consumer.Broker.{Broker}
use aristote_dispatcher.Consumer.Exceptions.{Exception}
use aristote_dispatcher.Consumer.Main.{
  Configuration, make_strategy, make_priority_handler, make_policy, assembled, make_server,
}
use aristote_dispatcher.Consumer.Policy.{
  parallel_requests_threshold_requeue_policy, QualityOfServicePolicy,
}
use aristote_dispatcher.Consumer.Priority.{PriorityHandler}
use aristote_dispatcher.Consumer.Server.{VllmServer, server_eq}
use aristote_dispatcher.Consumer.Strategy.{Strategy}
use aristote_dispatcher.Consumer.RpcServer.Connection.{
  Call, Limits, Session, first_connect, connected, all_calls, slots,
}
use aristote_dispatcher.Consumer.RpcServer.Connection.Consumers.{first_connect_lem, slots-all_calls}
use aristote_dispatcher.Consumer.RpcServer.InFlight.{FitsServer, IsBounded}
use aristote_dispatcher.Consumer.RpcServer.State.{RpcServer, new_rpc_server, empty_counters}
use aristote_dispatcher.Consumer.RpcServer.Tasks.{Machine, Event, run}
use aristote_dispatcher.Consumer.RpcServer.Tasks.Bounds.{run-lt}
use aristote_dispatcher.Consumer.RpcServer.Tasks.Count.{pending}
use aristote_dispatcher.Consumer.RpcServer.Tasks.Near.{IsDeferrable}
use aristote_dispatcher.Consumer.RpcServer.Tasks.Sequential.{idle}

-- The tasks of a process that has connected, with the consumers that its connection made.
abbrev pub serving : Broker → List Event → Session → Machine
serving broker es s = run broker (slots s.calls) es (idle (record { rpc = s.rpc; trace = [] }))

abbrev pub serve : (Call → Bool) → Limits → Broker → List Event → RpcServer → Machine
serve returns l broker es rpc =
    serving broker es (first_connect returns l (record { rpc = rpc; calls = [] })).1

-- The parts of a server object that was made.
record Parts (c : Configuration) (rpc : RpcServer) : Type 0 where
  strategy : Strategy
  handler : PriorityHandler
  policy : QualityOfServicePolicy
  made_policy : make_policy c ≡ ok policy
  made : rpc ≡ new_rpc_server c.settings strategy policy handler

assembled-Parts :
    (c : Configuration) (rpc : RpcServer) (s : Result Exception Strategy)
    (h : Result Exception PriorityHandler) (p : Result Exception QualityOfServicePolicy)
    → make_policy c ≡ p
    → assembled c.settings s h p ≡ ok rpc
    → Parts c rpc
assembled-Parts c rpc (raised e) h p made e' = cc
assembled-Parts c rpc (ok s) (raised e) p made e' = cc
assembled-Parts c rpc (ok s) (ok h) (raised e) made e' = cc
assembled-Parts c rpc (ok s) (ok h) (ok p) made e' = record {
  strategy = s;
  handler = h;
  policy = p;
  made_policy = made;
  made = (let same : new_rpc_server c.settings s p h ≡ rpc = cc in sym same);
}

make_server-Parts : (c : Configuration) (rpc : RpcServer) → make_server c ≡ ok rpc → Parts c rpc
unfolding make_server
make_server-Parts c rpc e =
    assembled-Parts c rpc (make_strategy c) (make_priority_handler c) (make_policy c) refl e

make_policy_lem :
    (c : Configuration)
    → c.quality_of_service_policy ≡ "parallel-requests-threshold-requeue"
    → make_policy c ≡ ok (parallel_requests_threshold_requeue_policy none)
unfolding make_policy
make_policy_lem c e = rw e refl

empty_counters_fit : (servers : List VllmServer) → All FitsServer (empty_counters servers)
empty_counters_fit [] = tt
empty_counters_fit (s ∷ servers) =
    All-insert FitsServer s [] (empty_counters servers) (omega arith) (empty_counters_fit servers)

connected-IsBounded :
    (c : Configuration) (rpc : RpcServer)
    → make_server c ≡ ok rpc
    → c.quality_of_service_policy ≡ "parallel-requests-threshold-requeue"
    → IsBounded c.settings.best_priority (record { rpc = connected rpc; trace = [] })
unfolding new_rpc_server
connected-IsBounded c rpc e named =
    let parts = make_server-Parts c rpc e in
    let same : Path (Result Exception QualityOfServicePolicy) (ok parts.policy)
        (ok (parallel_requests_threshold_requeue_policy none)) =
      sym parts.made_policy ∙ make_policy_lem c named in
    record {
      threshold = none;
      policy =
          (let p : parts.policy ≡ parallel_requests_threshold_requeue_policy none = cc in
            ap (λ (r : RpcServer). r.quality_of_service_policy) parts.made ∙ p);
      best_priority = ap (λ (r : RpcServer). r.settings.best_priority) parts.made;
      fits =
          subst (λ (r : RpcServer). All FitsServer r.current_parallel_requests) (sym parts.made)
            (empty_counters_fit c.settings.vllm_servers);
    }

session_lem :
    (returns : Call → Bool) (l : Limits) (rpc : RpcServer)
    → ((c : Call) → returns c ≡ true)
    → (first_connect returns l (record { rpc = rpc; calls = [] })).1
      ≡ record { rpc = connected rpc; calls = all_calls l rpc.settings }
session_lem returns l rpc all =
    ap (λ (o : Result Exception Unit × Session). o.1) (first_connect_lem returns all l rpc)

-- A process that is configured with the requeue policy on parallel requests, for any strategy and priority
-- handler, and whose connection meets no failure: after any interleaving of its callbacks on messages that
-- are not urgent with completions, expiries, pings and rounds of the metrics tracker, the requests that count
-- at a server and the callbacks that are about to count one there are together at most what the server takes
-- plus the number of servers.
pub serve-le :
    (c : Configuration) (rpc : RpcServer) (returns : Call → Bool) (l : Limits) (broker : Broker)
    (es : List Event) (s : VllmServer) (ids : List String)
    → make_server c ≡ ok rpc
    → c.quality_of_service_policy ≡ "parallel-requests-threshold-requeue"
    → ((call : Call) → returns call ≡ true)
    → All (IsDeferrable c.settings.best_priority) es
    → lookup s (serve returns l broker es rpc).world.rpc.current_parallel_requests ≡ some ids
    → length ids + pending s (serve returns l broker es rpc).tasks
      ≤ s.max_parallel_requests + length c.settings.vllm_servers
unfolding new_rpc_server
serve-le c rpc returns l broker es s ids e named all calm counted =
    let session : Session = record { rpc = connected rpc; calls = all_calls l rpc.settings } in
    let same = session_lem returns l rpc all in
    let n : slots (all_calls l rpc.settings) ≡ suc (length c.settings.vllm_servers) =
      slots-all_calls l rpc.settings
      ∙ ap (λ (r : RpcServer). suc (length r.settings.vllm_servers))
          (make_server-Parts c rpc e).made in
    let counted' : lookup s (serving broker es session).world.rpc.current_parallel_requests
        ≡ some ids =
      ap (λ x. lookup s (serving broker es x).world.rpc.current_parallel_requests) (sym same)
      ∙ counted in
    let bound =
      run-lt c.settings.best_priority (slots (all_calls l rpc.settings)) broker es
        (record { rpc = connected rpc; trace = [] }) s ids (omega (arith, n))
        (connected-IsBounded c rpc e named) calm counted' in
    let there : pending s (serve returns l broker es rpc).tasks
        ≡ pending s (serving broker es session).tasks =
      ap (λ x. pending s (serving broker es x).tasks) same in
    omega (arith, bound, there, n)
