-- ===== src/Consumer/Examples.antt =====
-- The theorems about the consumer's callbacks at concrete messages. `Choices` has those about the
-- policies, the strategies and the pinger.
mod Choices
mod Interleaved
mod Windows
mod Started
use aristote_dispatcher.Common.{
  ℕ, ◌≡◌, ◌≢◌, ◌≤◌, ◌<◌, ◌⊎◌, ◌↔◌, refl, ◌+◌, ◌==◌, true, false, String, Option, none, some, List,
  [], ◌∷◌, ◌++◌, arith,
}
use aristote_dispatcher.Common.Dict.{lookup, insert, contains}
use aristote_dispatcher.Common.Int.{◌≤ℤ◌}
use aristote_dispatcher.Consumer.Broker.{reliable, unreachable}
use aristote_dispatcher.Consumer.Message.{Body, raw, object, IncomingMessage, persistent}
use aristote_dispatcher.Consumer.Policy.{parallel_requests_threshold_requeue_policy}
use aristote_dispatcher.Consumer.Priority.{vllm_priority_handler}
use aristote_dispatcher.Consumer.RpcServer.Answer.{on_message_callback}
use aristote_dispatcher.Consumer.RpcServer.Callbacks.{serve_private, on_completion_callback}
use aristote_dispatcher.Consumer.RpcServer.Completed.{Completed, completion-Completed}
use aristote_dispatcher.Consumer.RpcServer.Delivery.{
  on_message_callback-Fate, PrivateFate, serve_private-Fate,
}
use aristote_dispatcher.Consumer.RpcServer.Duplicates.{
  choose_among_duplicates, score_duplicates, matching_servers,
}
use aristote_dispatcher.Consumer.RpcServer.Private.{choose_among_duplicates-IsOf}
use aristote_dispatcher.Consumer.Strategy
use aristote_dispatcher.Consumer.Strategy.LeastBusy.{choice}
use aristote_dispatcher.Consumer.RpcServer.Events.{
  Event, request, private_request, completion, expiry, run,
}
use aristote_dispatcher.Consumer.RpcServer.Expiry.{HasExpiry, run-HasExpiry}
use aristote_dispatcher.Consumer.RpcServer.Fate.{Fate}
use aristote_dispatcher.Consumer.RpcServer.InFlight.{IsBounded, run-IsBounded}
use aristote_dispatcher.Consumer.RpcServer.State.{World, RpcServer}
use aristote_dispatcher.Consumer.Server.{VllmServer}
use aristote_dispatcher.Consumer.Settings.{Settings}
use aristote_dispatcher.Consumer.Strategy.{Strategy, round_robin}
use aristote_dispatcher.Consumer.Strategy.RoundRobin

abbrev pub server_a : VllmServer
server_a = record { url = "http://a"; token = none; organization = "A"; max_parallel_requests = 1 }

abbrev server_b : VllmServer
server_b = record {
  url = "http://b";
  token = some "t";
  organization = "B";
  max_parallel_requests = 2;
}

abbrev servers : List VllmServer
servers = server_a ∷ server_b ∷ []

abbrev pub settings : Settings
settings = record {
  model = "m";
  vllm_servers = servers;
  routing_strategy = "round-robin";
  best_priority = 3;
  metrics_refresh_rate = 1;
  default_max_parallel_requests = 10;
}

abbrev turns : RoundRobin.RoundRobin
turns = record { servers = servers; round_robin_idx = 1 }

abbrev connected : RpcServer
connected = record {
  settings = settings;
  strategy = round_robin turns;
  quality_of_service_policy = parallel_requests_threshold_requeue_policy none;
  priority_handler = vllm_priority_handler 3;
  connection = some false;
  channel = some false;
  queue = some "m";
  current_parallel_requests = (server_a, []) ∷ (server_b, []) ∷ [];
}

abbrev pub start : World
start = record { rpc = connected; trace = [] }

abbrev message : ℕ → Body → IncomingMessage
message tag body = record {
  delivery_tag = tag;
  body = body;
  headers = ("x-requeue-count", 4) ∷ [];
  content_type = none;
  correlation_id = some "id";
  delivery_mode = some persistent;
  priority = some 1;
  reply_to = some "answers";
  routing_key = some "m";
}

abbrev pub question : IncomingMessage
question = message 1 (raw "AVAILABLE?")

abbrev private_fields : List (String × Option String)
private_fields = ("routing_mode", some "private-first") ∷ ("organization", some "A") ∷ []

abbrev pub private_question : IncomingMessage
private_question = message 2 (object private_fields)

abbrev over_fields : List (String × Option String)
over_fields = ("message_id", some "id") ∷ ("server", some "http://a") ∷ []

abbrev lost_fields : List (String × Option String)
lost_fields = ("message_id", some "id") ∷ ("server", some "http://c") ∷ []

abbrev pub over : IncomingMessage
over = message 3 (object over_fields)

abbrev lost : IncomingMessage
lost = message 4 (object lost_fields)

abbrev counting : World
counting = record start {
  rpc = record connected {
    current_parallel_requests = (server_a, "id" ∷ []) ∷ (server_b, []) ∷ [];
  };
}

abbrev pub events : List Event
events =
    request 0 question
    ∷ private_request 0 private_question
    ∷ completion over
    ∷ expiry server_b "id"
    ∷ []

on_message_callback-Fate_example :
    Fate true question none start (on_message_callback reliable 0 question start)
on_message_callback-Fate_example = on_message_callback-Fate reliable 0 question start

serve_private-Fate_example :
    PrivateFate private_question start (serve_private unreachable 0 private_question start)
serve_private-Fate_example = serve_private-Fate unreachable 0 private_question start

start-IsBounded : IsBounded 3 start
start-IsBounded = record {
  threshold = none;
  policy = refl;
  best_priority = refl;
  fits = (omega arith, (omega arith, tt));
}

run-IsBounded_example : IsBounded 3 (run reliable events start)
run-IsBounded_example =
    run-IsBounded 3 reliable events start (refl, (refl, (tt, (tt, tt)))) start-IsBounded

start-HasExpiry : HasExpiry start
unfolding lookup contains
start-HasExpiry = record { task = λ s id ids counted inside. ground arith }

run-HasExpiry_example : HasExpiry (run reliable events start)
run-HasExpiry_example = run-HasExpiry reliable events start start-HasExpiry

completion-Completed_example :
    Completed true over counting (on_completion_callback reliable over counting).1
completion-Completed_example = completion-Completed reliable over counting

choose_among_duplicates-IsOf_example : some server_b.organization ≡ some "B"
unfolding choose_among_duplicates score_duplicates matching_servers Strategy.get_server_score choice
    insert
choose_among_duplicates-IsOf_example =
    choose_among_duplicates-IsOf 0 (round_robin turns) servers (some "B") server_b none refl
