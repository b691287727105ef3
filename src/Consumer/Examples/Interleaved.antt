-- ===== src/Consumer/Examples/Interleaved.antt =====
-- The theorems about the interleaved callbacks at concrete messages.
use aristote_dispatcher.Common.{
  ℕ, ◌+◌, ◌<◌, ◌≡◌, refl, String, none, some, List, [], ◌∷◌, ◌++◌, arith, length, All,
}
use aristote_dispatcher.Common.Dict.{lookup}
use aristote_dispatcher.Consumer.Broker.{reliable}
use aristote_dispatcher.Consumer.Examples.{server_a, question, private_question, start, servers}
use aristote_dispatcher.Consumer.RpcServer.Fate.{counters}
use aristote_dispatcher.Consumer.RpcServer.InFlight.{IsBounded}
use aristote_dispatcher.Consumer.RpcServer.State.{World}
use aristote_dispatcher.Consumer.Strategy.{round_robin}
use aristote_dispatcher.Consumer.Server.{server_eq}
use aristote_dispatcher.Consumer.RpcServer.Tasks.{
  Machine, Event, arrival, private_arrival, resumption, run,
}
use aristote_dispatcher.Consumer.RpcServer.Tasks.Count.{pending}
use aristote_dispatcher.Consumer.RpcServer.Tasks.Bounds.{run-lt}
use aristote_dispatcher.Consumer.RpcServer.Tasks.Sequential.{idle}

-- The round robin is at the server that takes one.
abbrev begun : World
begun = record start {
  rpc = record start.rpc {
    strategy = round_robin (record { servers = servers; round_robin_idx = 0 });
  };
}

begun-IsBounded : IsBounded 3 begun
begun-IsBounded = record {
  threshold = none;
  policy = refl;
  best_priority = refl;
  fits = (omega arith, (omega arith, tt));
}

-- Two messages for the server that takes one, the second of which is let through before the first counts.
abbrev pub crossed : List Event
crossed =
    private_arrival 0 private_question
    ∷ arrival 1 (record question { correlation_id = some "other" })
    ∷ resumption 0
    ∷ resumption 0
    ∷ []

abbrev finished : List Event
finished = crossed ++ resumption 0 ∷ resumption 0 ∷ []

-- Both count in the end, although the server takes one: a run at which the bound of one slot fails.
crossed_over :
    lookup server_a (counters (run reliable 2 finished (idle begun)).world)
    ≡ some ("other" ∷ "id" ∷ [])
unfolding run lookup aristote_dispatcher.Consumer.RpcServer.Tasks.step
    aristote_dispatcher.Consumer.RpcServer.Tasks.advance
    aristote_dispatcher.Consumer.RpcServer.Callbacks.decide_private
    aristote_dispatcher.Consumer.Priority.apply_priority
    aristote_dispatcher.Consumer.RpcServer.Duplicates.choose_among_duplicates
    aristote_dispatcher.Consumer.RpcServer.Duplicates.score_duplicates
    aristote_dispatcher.Consumer.RpcServer.Duplicates.matching_servers
    aristote_dispatcher.Common.Dict.get_or aristote_dispatcher.Consumer.Strategy.get_server_score
    aristote_dispatcher.Common.Dict.insert aristote_dispatcher.Consumer.Strategy.LeastBusy.choice
    aristote_dispatcher.Consumer.RpcServer.Callbacks.target_requeue
    aristote_dispatcher.Consumer.RpcServer.Answer.consult_policy
    aristote_dispatcher.Consumer.Policy.apply_policy
    aristote_dispatcher.Consumer.RpcServer.Answer.choose_and_consult
    aristote_dispatcher.Common.Dict.add aristote_dispatcher.Common.Dict.contains
    aristote_dispatcher.Consumer.Policy.apply_parallel_requests_threshold
    aristote_dispatcher.Consumer.Strategy.choose_server
    aristote_dispatcher.Consumer.Strategy.RoundRobin.choose_server
crossed_over = refl

run-lt_example :
    length {A = String} ("id" ∷ []) + pending server_a (run reliable 2 crossed (idle begun)).tasks
    < server_a.max_parallel_requests + 2
unfolding run lookup aristote_dispatcher.Consumer.RpcServer.Tasks.step
    aristote_dispatcher.Consumer.RpcServer.Tasks.advance
    aristote_dispatcher.Consumer.RpcServer.Callbacks.decide_private
    aristote_dispatcher.Consumer.Priority.apply_priority
    aristote_dispatcher.Consumer.RpcServer.Duplicates.choose_among_duplicates
    aristote_dispatcher.Consumer.RpcServer.Duplicates.score_duplicates
    aristote_dispatcher.Consumer.RpcServer.Duplicates.matching_servers
    aristote_dispatcher.Common.Dict.get_or aristote_dispatcher.Consumer.Strategy.get_server_score
    aristote_dispatcher.Common.Dict.insert aristote_dispatcher.Consumer.Strategy.LeastBusy.choice
    aristote_dispatcher.Consumer.RpcServer.Callbacks.target_requeue
    aristote_dispatcher.Consumer.RpcServer.Answer.consult_policy
    aristote_dispatcher.Consumer.Policy.apply_policy
    aristote_dispatcher.Consumer.RpcServer.Answer.choose_and_consult
    aristote_dispatcher.Common.Dict.add aristote_dispatcher.Common.Dict.contains
    aristote_dispatcher.Consumer.Policy.apply_parallel_requests_threshold
    aristote_dispatcher.Consumer.Strategy.choose_server
    aristote_dispatcher.Consumer.Strategy.RoundRobin.choose_server
run-lt_example =
    run-lt 3 2 reliable crossed begun server_a ("id" ∷ []) (omega arith) begun-IsBounded
      (refl, (refl, (tt, (tt, tt)))) refl
