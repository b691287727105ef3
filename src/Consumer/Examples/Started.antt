-- ===== src/Consumer/Examples/Started.antt =====
-- The theorems about the process at a concrete configuration.
use aristote_dispatcher.Common.{
  ℕ, ◌+◌, ◌≤◌, ◌≡◌, ◌⊎◌, refl, String, Bool, true, false, Option, none, some, List, [], ◌∷◌, length,
}
use aristote_dispatcher.Common.Dict.{lookup}
use aristote_dispatcher.Common.Exec.{ok}
use aristote_dispatcher.Consumer.Server.{server_eq}
use aristote_dispatcher.Consumer.Broker.{reliable}
use aristote_dispatcher.Consumer.Exceptions.{vllm_not_ready}
use aristote_dispatcher.Consumer.Examples.{server_a, server_b, servers, settings}
use aristote_dispatcher.Consumer.Examples.Interleaved.{crossed}
use aristote_dispatcher.Consumer.Main.{Configuration, make_server, main_consumer}
use aristote_dispatcher.Consumer.Main.Serving.{serve, serve-le}
use aristote_dispatcher.Consumer.Main.Shutdown.{IsAborted, IsStopped, main_consumer_outcomes}
use aristote_dispatcher.Consumer.Policy.{parallel_requests_threshold_requeue_policy}
use aristote_dispatcher.Consumer.Priority.{vllm_priority_handler}
use aristote_dispatcher.Consumer.Strategy.{round_robin}
use aristote_dispatcher.Consumer.RpcServer.Connection.{Call, Limits}
use aristote_dispatcher.Consumer.RpcServer.State.{RpcServer}
use aristote_dispatcher.Consumer.RpcServer.Tasks.Count.{pending}

abbrev configuration : Configuration
configuration = record {
  settings = settings;
  priority_handler = "vllm";
  quality_of_service_policy = "parallel-requests-threshold-requeue";
  time_to_first_token_threshold = none;
  refresh_count_per_window = 24;
}

abbrev limits : Limits
limits = record {
  rpc_queue_expiration = 30000;
  rpc_message_expiration = 570000;
  rpc_max_priority = 5;
}

abbrev made : RpcServer
made = record {
  settings = settings;
  strategy = round_robin (record { servers = servers; round_robin_idx = 0 });
  quality_of_service_policy = parallel_requests_threshold_requeue_policy none;
  priority_handler = vllm_priority_handler 3;
  connection = none;
  channel = none;
  queue = none;
  current_parallel_requests = (server_b, []) ∷ (server_a, []) ∷ [];
}

abbrev always : Call → Bool
always call = true

made_lem : make_server configuration ≡ ok made
unfolding make_server aristote_dispatcher.Consumer.Main.make_strategy
    aristote_dispatcher.Consumer.Main.make_priority_handler
    aristote_dispatcher.Consumer.Main.make_policy
    aristote_dispatcher.Consumer.RpcServer.State.new_rpc_server
    aristote_dispatcher.Consumer.Strategy.RoundRobin.new_round_robin
    aristote_dispatcher.Common.Dict.insert
made_lem = refl

counted :
    lookup server_a (serve always limits reliable crossed made).world.rpc.current_parallel_requests
    ≡ some ("id" ∷ [])
unfolding aristote_dispatcher.Consumer.RpcServer.Tasks.run lookup
    aristote_dispatcher.Consumer.RpcServer.Tasks.step
    aristote_dispatcher.Consumer.RpcServer.Tasks.advance
    aristote_dispatcher.Consumer.RpcServer.Callbacks.decide_private
    aristote_dispatcher.Consumer.Priority.apply_priority
    aristote_dispatcher.Consumer.RpcServer.Duplicates.choose_among_duplicates
    aristote_dispatcher.Consumer.RpcServer.Duplicates.score_duplicates
    aristote_dispatcher.Consumer.RpcServer.Duplicates.matching_servers
    aristote_dispatcher.Common.Dict.get_or aristote_dispatcher.Consumer.Strategy.get_server_score
    aristote_dispatcher.Common.Dict.insert aristote_dispatcher.Consumer.Strategy.LeastBusy.choice
    aristote_dispatcher.Consumer.RpcServer.Callbacks.target_requeue
    aristote_dispatcher.Consumer.RpcServer.Answer.consult_policy
    aristote_dispatcher.Consumer.Policy.apply_policy
    aristote_dispatcher.Consumer.RpcServer.Answer.choose_and_consult
    aristote_dispatcher.Common.Dict.add aristote_dispatcher.Common.Dict.contains
    aristote_dispatcher.Consumer.Policy.apply_parallel_requests_threshold
    aristote_dispatcher.Consumer.Strategy.choose_server
    aristote_dispatcher.Consumer.Strategy.RoundRobin.choose_server
    aristote_dispatcher.Consumer.RpcServer.Connection.slots
    aristote_dispatcher.Consumer.RpcServer.Connection.first_connect
    aristote_dispatcher.Consumer.RpcServer.Connection.consume_private
counted = refl

serve-le_example :
    length {A = String} ("id" ∷ [])
      + pending server_a (serve always limits reliable crossed made).tasks
    ≤ server_a.max_parallel_requests + length servers
serve-le_example =
    serve-le configuration made always limits reliable crossed server_a ("id" ∷ []) made_lem refl
      (λ call. refl) (refl, (refl, (tt, (tt, tt)))) counted

abbrev closed_down : RpcServer → RpcServer
closed_down r = record r { channel = some true }

main_consumer_outcomes_example :
    let done = some (vllm_not_ready 500) ∷ none ∷ [] in
    let out = main_consumer done always limits true closed_down made in
    IsAborted done out ⊎ IsStopped done out
main_consumer_outcomes_example =
    main_consumer_outcomes (some (vllm_not_ready 500) ∷ none ∷ []) always limits true closed_down
      made
