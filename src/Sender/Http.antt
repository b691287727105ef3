-- ===== src/Sender/Http.antt =====
-- sender/main.py: what the middleware reads of a request and what it answers. The database, the RPC call,
-- the management interface and `str.split` are parameters, the fields of `Backend`. A request body is kept
-- as the values that are read of its JSON text, `none` for a text that is no JSON; priorities are natural
-- numbers.
use aristote_dispatcher.Common.{ℕ, String, string_eq, Bool, Option, List, option_eq}
use aristote_dispatcher.Common.Exec.{Exec, Result}
use aristote_dispatcher.Common.Float.{Float}
use aristote_dispatcher.Consumer.Exceptions.{Exception}
use aristote_dispatcher.Sender.Models.{Model}
use aristote_dispatcher.Sender.RpcClient.{Outcome}
use aristote_dispatcher.Sender.Settings.{Mapping}
use aristote_dispatcher.Sender.Users.{User}

-- sender/exceptions.py
pub data HttpException : Type 0 where
  no_token invalid_token unauthorized : HttpException

-- `server_error` is the sender's own, `channel_closed` the broker's.
pub data Failure : Type 0 where
  server_error channel_closed : Failure
  failed : Exception → Failure

pub record JsonBody : Type 0 where
  pub model : Option (Option String)
  pub stream : Option Bool
  pub routing_mode : Option (Option String)
  pub priority : Option ℕ

pub record Request : Type 0 where
  pub method : String
  pub path : String
  pub authorization : Option String
  pub content_type : Option String
  pub body : Option JsonBody

pub record Metric : Type 0 where
  pub user_name : String
  pub user_organization : Option String
  pub model : String
  pub server : String
  pub server_organization : Option String
  pub strategy : String
  pub requeue_count : ℕ
  pub max_parallel_requests : ℕ
  pub current_parallel_requests : Option ℕ
  pub priority : ℕ
  pub performance_score : Option Float
  pub routing_mode : String

-- The request to the inference server, what is stored of it, and the completion that is sent after it.
pub record Forwarded : Type 0 where
  pub url : String
  pub path : String
  pub content_type : String
  pub bearer : Option String
  pub body : JsonBody
  pub stream : Bool
  pub metric : Metric
  pub completion : List (String × Option String)

-- `next` is what the application behind the middleware answers.
pub data Reply : Type 0 where
  plain : ℕ → Reply
  error : ℕ → Reply
  next : Reply
  streamed : Forwarded → Reply

-- What `rpc_client.call` is called with.
pub record CallArguments : Type 0 where
  pub priority : ℕ
  pub threshold : ℕ
  pub model : String
  pub organization : Option String
  pub routing_mode : String

pub record Backend : Type 0 where
  pub connected : Bool
  pub users : List User
  pub split : String → List String
  pub bindings : Result Exception (List String)
  pub model_host_mapping : Mapping
  pub call : CallArguments → Result Failure Outcome

-- The cached models, and how many tasks were started to read them again.
pub record Sender : Type 0 where
  pub models : List Model
  pub refresh_tasks : ℕ

abbrev pub Handler : Type 0 → Type 0
Handler A = Exec Failure Sender A
