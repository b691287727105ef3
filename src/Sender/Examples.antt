-- ===== src/Sender/Examples.antt =====
-- The theorems about the sender at concrete requests, users and responses.
mod Answers
mod Calls
use aristote_dispatcher.Common.{
  ◌≡◌, ◌≢◌, ◌≤◌, ◌<◌, ◌⊎◌, refl, ◌==◌, true, false, ◌&&◌, String, none, some, List, [], ◌∷◌, arith,
  eq_iff, string_eq, if◌then◌else◌,
}
use aristote_dispatcher.Common.Dict.{lookup, contains}
use aristote_dispatcher.Common.Exec.{Result, ok, raised}
use aristote_dispatcher.Consumer.Exceptions.{Exception}
use aristote_dispatcher.Consumer.Message.{llm_params, IncomingMessage, MessageData}
use aristote_dispatcher.Sender.Models.{Model, models_of, model_of, is_model_queue, get_model_by_id}
use aristote_dispatcher.Sender.Models.Cache.{get_model_by_id_lem}
use aristote_dispatcher.Sender.RpcClient.{RpcClient, Session, pending, response}
use aristote_dispatcher.Sender.RpcClient.Calls.{IsLinked}
use aristote_dispatcher.Sender.Settings.{host_mapping, of_models}
use aristote_dispatcher.Sender.Users.{
  User, Database, done, exit, Verdict, accepted, Updates, find_user, delete_user,
}
use aristote_dispatcher.Sender.Users.Unique.{IsKeyed}
use aristote_dispatcher.Sender.Users.Commands.{delete_user_lem}
use aristote_dispatcher.Sender.Http.{JsonBody, Request, Backend, Sender}
use aristote_dispatcher.Sender.Access.{authorize, arguments, check_mode, admission}
use aristote_dispatcher.Sender.Proxy.{forward, proxy, conclude}
use aristote_dispatcher.Sender.Access.Admitted.{IsAdmissible, admission-IsAdmissible}
use aristote_dispatcher.Sender.Proxy.Served.{IsServed, proxy-IsServed}

abbrev ann : User
ann = record {
  id = 1;
  token = "t1";
  name = "Ann";
  organization = some "A";
  email = none;
  priority = 2;
  threshold = some 5;
  client_type = some "chat";
  default_routing_mode = "any";
}

abbrev bob : User
bob = record ann { id = 2; token = "t2"; name = "Bob" }

abbrev table : Database
table = record { users = ann ∷ bob ∷ []; next_id = 3 }

abbrev accepts : User → Verdict
accepts u = accepted

abbrev better : Updates
better = record {
  priority = some 4;
  threshold = none;
  organization = none;
  email = none;
  client_type = none;
  default_routing_mode = none;
}

table-IsKeyed : IsKeyed table
table-IsKeyed = ((((refl, λ q. omega (arith, q)), tt), (tt, tt)), (omega arith, (omega arith, tt)))

delete_user_example :
    ((user : User)
      → find_user "t1" (ann ∷ bob ∷ []) ≡ some user
      → (after : Database) × (delete_user "t1" table ≡ (done, after))
        × (find_user "t1" after.users ≡ none)
        × ((other : String)
            → "t1" ≢ other
            → find_user other after.users ≡ find_user other (ann ∷ bob ∷ [])))
    × (find_user "t1" (ann ∷ bob ∷ []) ≡ none → delete_user "t1" table ≡ (exit 1, table))
delete_user_example = delete_user_lem "t1" table table-IsKeyed

get_model_by_id_example :
    (false ≡ true
      → (fetch : Result Exception (List String))
      → (m : Model) × (get_model_by_id fetch "m" [] ≡ (ok (some m), [])) × (m.id ≡ "m"))
    × (false ≡ false → (e : Exception) → get_model_by_id (raised e) "m" [] ≡ (raised e, []))
    × (false ≡ false
        → (bindings : List String)
        → get_model_by_id (ok bindings) "m" [] ≡ (
          ok (
              if contains {A = String} "m" bindings && is_model_queue "m"
              then some (model_of "m")
              else none),
          models_of bindings,
        ))
unfolding contains
get_model_by_id_example = get_model_by_id_lem "m" []

abbrev pub client : RpcClient
client = record {
  futures = ("id", 0) ∷ [];
  callback_queue = "q";
  connection = some false;
  channel = some false;
}

abbrev pub session : Session
session = record { client = client; store = (0, pending) ∷ []; next = 1; trace = [] }

abbrev params : MessageData
params = record {
  llm_url = some "http://a";
  llm_token = none;
  llm_organization = some "A";
  strategy = "round-robin";
  requeue_count = 0;
  max_parallel_requests = 1;
  current_parallel_requests = some 0;
  forwarded_priority = none;
  performance_score = none;
}

abbrev pub reply : IncomingMessage
reply = record {
  delivery_tag = 1;
  body = llm_params params;
  headers = [];
  content_type = none;
  correlation_id = some "id";
  delivery_mode = none;
  priority = none;
  reply_to = none;
  routing_key = none;
}

pub session-IsLinked : IsLinked session
unfolding lookup
session-IsLinked =
    (λ id f h. ground arith, λ id other f h k. ground (arith, eq_iff "id" id, eq_iff "id" other))

abbrev greedy : JsonBody
greedy = record {
  model = some (some "m");
  stream = none;
  routing_mode = some (some "private-only");
  priority = some 9;
}

abbrev post : Request
post = record {
  method = "POST";
  path = "/v1/chat/completions";
  authorization = some "Bearer t1";
  content_type = none;
  body = some greedy;
}

abbrev backend : Backend
backend = record {
  connected = true;
  users = ann ∷ bob ∷ [];
  split = λ header. "Bearer" ∷ "t1" ∷ [];
  bindings = ok ("m" ∷ "m_completed" ∷ []);
  model_host_mapping = of_models (("m", some ("A" ∷ [])) ∷ []);
  call = λ args. ok (response reply);
}

abbrev sender : Sender
sender = record { models = model_of "m" ∷ []; refresh_tasks = 0 }

admission-IsAdmissible_example : IsAdmissible backend ann (arguments ann greedy "m" "private-only")
unfolding admission get_model_by_id check_mode contains lookup host_mapping
admission-IsAdmissible_example =
    admission-IsAdmissible backend ann greedy sender sender
      (arguments ann greedy "m" "private-only") refl

proxy-IsServed_example :
    IsServed backend post
      (forward post ann greedy (arguments ann greedy "m" "private-only") reply params "http://a")
unfolding proxy authorize admission get_model_by_id check_mode contains lookup conclude host_mapping
proxy-IsServed_example =
    proxy-IsServed backend post sender sender
      (forward post ann greedy (arguments ann greedy "m" "private-only") reply params "http://a")
      refl
