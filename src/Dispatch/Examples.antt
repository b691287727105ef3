-- ===== src/Dispatch/Examples.antt =====
-- A call at concrete values.
use aristote_dispatcher.Common.{
  string_eq, ◌≡◌, refl, some, none, true, false, [], ◌∷◌, arith, eq_iff,
}
use aristote_dispatcher.Common.Dict.{lookup}
use aristote_dispatcher.Consumer.Broker.{reliable}
use aristote_dispatcher.Consumer.Policy.{parallel_requests_threshold_requeue_policy}
use aristote_dispatcher.Consumer.Priority.{vllm_priority_handler}
use aristote_dispatcher.Consumer.Server.{VllmServer, server_eq}
use aristote_dispatcher.Consumer.Settings.{Settings}
use aristote_dispatcher.Consumer.Strategy.{round_robin}
use aristote_dispatcher.Consumer.RpcServer.State.{World}
use aristote_dispatcher.Consumer.RpcServer.Connection.{Limits, first_connect}
use aristote_dispatcher.Dispatch.Listing.{declared, listed_once}
use aristote_dispatcher.Dispatch.Routing.{IsStarted, start_call-IsStarted}
use aristote_dispatcher.Sender.Models.{is_model_queue, models_of, model_of}
use aristote_dispatcher.Dispatch.{arriving, handled}
use aristote_dispatcher.Dispatch.Answered.{Dispatched, dispatch_lem}
use aristote_dispatcher.Sender.Http.{JsonBody, Request, CallArguments}
use aristote_dispatcher.Sender.RpcClient.{Session, pending, start_call}
use aristote_dispatcher.Sender.RpcClient.Calls.{IsLinked}
use aristote_dispatcher.Sender.Users.{User}

abbrev server : VllmServer
server = record { url = "http://a"; token = none; organization = "A"; max_parallel_requests = 1 }

abbrev settings : Settings
settings = record {
  model = "m";
  vllm_servers = server ∷ [];
  routing_strategy = "round-robin";
  best_priority = 3;
  metrics_refresh_rate = 1;
  default_max_parallel_requests = 10;
}

abbrev world : World
world = record {
  rpc = (record {
    settings = settings;
    strategy = round_robin (record { servers = server ∷ []; round_robin_idx = 0 });
    quality_of_service_policy = parallel_requests_threshold_requeue_policy none;
    priority_handler = vllm_priority_handler 3;
    connection = some false;
    channel = some false;
    queue = some "m";
    current_parallel_requests = (server, []) ∷ [];
  });
  trace = [];
}

abbrev session : Session
session = record {
  client = (record {
    futures = ("id", 0) ∷ [];
    callback_queue = "q";
    connection = some false;
    channel = some false;
  });
  store = (0, pending) ∷ [];
  next = 1;
  trace = [];
}

session-IsLinked : IsLinked session
unfolding lookup
session-IsLinked =
    (λ id f h. ground arith, λ id other f h k. ground (arith, eq_iff "id" id, eq_iff "id" other))

abbrev arguments : CallArguments
arguments = record {
  priority = 1;
  threshold = 5;
  model = "m";
  organization = some "A";
  routing_mode = "any";
}

abbrev user : User
user = record {
  id = 1;
  token = "t";
  name = "Ann";
  organization = some "A";
  email = none;
  priority = 2;
  threshold = some 5;
  client_type = some "chat";
  default_routing_mode = "any";
}

abbrev json : JsonBody
json = record { model = some (some "m"); stream = none; routing_mode = none; priority = some 1 }

abbrev post : Request
post = record {
  method = "POST";
  path = "/v1/chat/completions";
  authorization = some "Bearer t";
  content_type = none;
  body = some json;
}

dispatch_example :
    Dispatched post user json arguments session "id" 0 1 2 world
      (handled reliable 0 "any" (arriving 1 "id" "q" arguments) world)
unfolding lookup
dispatch_example =
    dispatch_lem reliable 0 world post user json arguments session "id" 0 1 2 session-IsLinked refl

abbrev limits : Limits
limits = record {
  rpc_queue_expiration = 30000;
  rpc_message_expiration = 30000;
  rpc_max_priority = 5;
}

listed_once_example :
    models_of
      (declared (first_connect (λ _. true) limits (record { rpc = world.rpc; calls = [] })).1.calls)
    ≡ model_of "m" ∷ []
unfolding is_model_queue
listed_once_example = listed_once (λ _. true) (λ _. refl) limits world.rpc refl

start_call-IsStarted_example :
    IsStarted reliable
      (first_connect (λ _. true) limits (record { rpc = world.rpc; calls = [] })).1.calls
      (server ∷ [])
      "id2"
      2
      1
      5
      (some "A")
      "private-first"
      session
      (start_call reliable "id2" (some 2) 1 5 "m" (some "A") "private-first" session)
start_call-IsStarted_example =
    start_call-IsStarted (λ _. true) (λ _. refl) limits world.rpc reliable "id2" 2 1 5 (some "A")
      "private-first" session
