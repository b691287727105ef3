-- ===== src/Consumer/Main.antt =====
-- main.py: how the process puts its parts together, and its life from the first ping to the shutdown. The
-- probes are left out. The proofs are in `Serving` and `Shutdown`.
pub mod Serving
pub mod Shutdown
use aristote_dispatcher.Common.{
  ℕ, String, string_eq, Bool, true, false, Option, none, some, List, [], ◌∷◌, ◌==◌, if◌then◌else◌,
}
use aristote_dispatcher.Common.Exec.{Result, ok, raised}
use aristote_dispatcher.Common.Float.{Float}
use aristote_dispatcher.Consumer.Broker.{Broker}
use aristote_dispatcher.Consumer.Exceptions.{
  Exception, unknown_strategy, unknown_priority_handler, unknown_qos_policy,
}
use aristote_dispatcher.Consumer.Pinger.{ServerPinger, wait_for_vllms}
use aristote_dispatcher.Consumer.Pinger
use aristote_dispatcher.Consumer.Policy.{
  QualityOfServicePolicy, warning_log_policy, performance_based_requeue_policy,
  parallel_requests_threshold_requeue_policy,
}
use aristote_dispatcher.Consumer.Priority.{
  PriorityHandler, ignore_priority_handler, vllm_priority_handler,
}
use aristote_dispatcher.Consumer.Server.{VllmServer}
use aristote_dispatcher.Consumer.Settings.{Settings}
use aristote_dispatcher.Consumer.Strategy.{Strategy, round_robin, least_busy}
use aristote_dispatcher.Consumer.Strategy.LeastBusy.{create}
use aristote_dispatcher.Consumer.Strategy.RoundRobin.{new_round_robin}
use aristote_dispatcher.Consumer.Strategy.Tracker.{stop_monitor}
use aristote_dispatcher.Consumer.RpcServer.Connection.{Call, Limits, Session, first_connect}
use aristote_dispatcher.Consumer.RpcServer.State.{RpcServer, new_rpc_server, close}

-- The settings that only this file reads, beside the others.
pub record Configuration : Type 0 where
  pub settings : Settings
  pub priority_handler : String
  pub quality_of_service_policy : String
  pub time_to_first_token_threshold : Option Float
  pub refresh_count_per_window : ℕ

unfoldable pub make_strategy : Configuration → Result Exception Strategy
make_strategy c =
    if c.settings.routing_strategy == "least-busy"
    then ok (least_busy (create c.settings.vllm_servers c.refresh_count_per_window))
    else if c.settings.routing_strategy == "round-robin"
    then ok (round_robin (new_round_robin c.settings.vllm_servers))
    else raised (unknown_strategy c.settings.routing_strategy)

unfoldable pub make_priority_handler : Configuration → Result Exception PriorityHandler
make_priority_handler c =
    if c.priority_handler == "ignore"
    then ok (ignore_priority_handler c.settings.best_priority)
    else if c.priority_handler == "vllm"
    then ok (vllm_priority_handler c.settings.best_priority)
    else raised (unknown_priority_handler c.priority_handler)

unfoldable pub make_policy : Configuration → Result Exception QualityOfServicePolicy
make_policy c =
    if c.quality_of_service_policy == "warning-log"
    then ok (warning_log_policy c.time_to_first_token_threshold)
    else if c.quality_of_service_policy == "performance-based-requeue"
    then ok (performance_based_requeue_policy c.time_to_first_token_threshold)
    else if c.quality_of_service_policy == "parallel-requests-threshold-requeue"
    then ok (parallel_requests_threshold_requeue_policy none)
    else raised (unknown_qos_policy c.quality_of_service_policy)

abbrev pub assembled :
    Settings
    → Result Exception Strategy
    → Result Exception PriorityHandler
    → Result Exception QualityOfServicePolicy
    → Result Exception RpcServer
assembled settings (raised e) handler policy = raised e
assembled settings (ok s) (raised e) policy = raised e
assembled settings (ok s) (ok h) (raised e) = raised e
assembled settings (ok s) (ok h) (ok p) = ok (new_rpc_server settings s p h)

-- The body of the file up to the server object.
unfoldable pub make_server : Configuration → Result Exception RpcServer
make_server c = assembled c.settings (make_strategy c) (make_priority_handler c) (make_policy c)

-- `p_strategy.tracker.stop_monitor()`, for a strategy that has a tracker.
unfoldable pub stop_tracker : Strategy → Strategy
stop_tracker (round_robin s) = round_robin s
stop_tracker (least_busy s) = least_busy (record s { tracker = stop_monitor s.tracker })

-- The process: what is connected, and the pinger once there is one. The strategy is the one object that the
-- server object holds.
pub record Process : Type 0 where
  pub session : Session
  pub pinger : Option ServerPinger

abbrev pub shut_down : Bool → ServerPinger → Session → Process
shut_down closes pinger s =
    let rpc = close closes s.rpc in
    record {
      session = (record s { rpc = record rpc { strategy = stop_tracker rpc.strategy } });
      pinger = some (Pinger.stop_monitor pinger);
    }

abbrev pub connected_process :
    Bool
    → (RpcServer → RpcServer)
    → List VllmServer
    → Result Exception Unit × Session
    → Result Exception Unit × Process
connected_process closes meanwhile servers (raised e, s) =
    (raised e, record { session = s; pinger = none })
connected_process closes meanwhile servers (ok u, s) =
    let pinger = Pinger.monitor (record { servers_to_monitor = servers; monitoring = false }) in
    (ok tt, shut_down closes pinger (record s { rpc = meanwhile s.rpc }))

abbrev pub waited :
    (Call → Bool)
    → Limits
    → Bool
    → (RpcServer → RpcServer)
    → RpcServer
    → Result Exception Unit
    → Result Exception Unit × Process
waited returns l closes meanwhile rpc (raised e) =
    (raised e, record { session = (record { rpc = rpc; calls = [] }); pinger = none })
waited returns l closes meanwhile rpc (ok u) =
    connected_process closes meanwhile rpc.settings.vllm_servers
      (first_connect returns l (record { rpc = rpc; calls = [] }))

-- `main_consumer`: `done` is what the wait hands back, `closes` whether the connection's own `close` returns,
-- and `meanwhile` what the callbacks and the pinger do to the object until the signal.
unfoldable pub main_consumer :
    List (Option Exception)
    → (Call → Bool)
    → Limits
    → Bool
    → (RpcServer → RpcServer)
    → RpcServer
    → Result Exception Unit × Process
main_consumer done returns l closes meanwhile rpc =
    waited returns l closes meanwhile rpc (wait_for_vllms done)
