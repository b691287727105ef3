-- ===== src/Sender/Proxy.antt =====
-- sender/main.py: `proxy`, the middleware that handles a request. The proofs are in `Served`.
pub mod Served
use aristote_dispatcher.Common.{
  ℕ, ◌+◌, min, String, string_eq, Bool, true, false, not, ◌&&◌, Option, none, some, List, [], ◌∷◌,
  ◌==◌, option_eq, if◌then◌else◌,
}
use aristote_dispatcher.Common.Dict.{lookup, contains, or_default}
use aristote_dispatcher.Common.Exec.{
  Exec, Result, ok, raised, pure, raise, lift, modify, ◌>>=◌, ◌>>◌,
}
use aristote_dispatcher.Common.Float.{Float}
use aristote_dispatcher.Consumer.Exceptions.{Exception, key_error, json_decode_error}
use aristote_dispatcher.Consumer.Message.{
  Body, raw, object, llm_params, IncomingMessage, MessageData,
}
use aristote_dispatcher.Sender.Models.{Model, get_model_by_id}
use aristote_dispatcher.Sender.RpcClient.{
  Outcome, response, call_result, CallResult, success, queue_overloaded, timeout,
}
use aristote_dispatcher.Sender.Users.{User, find_user}
use aristote_dispatcher.Sender.Http.{
  HttpException, no_token, invalid_token, unauthorized, Failure, server_error, channel_closed,
  failed, JsonBody, Request, Metric, Forwarded, Reply, plain, error, next, streamed, CallArguments,
  Backend, Sender, Handler,
}
use aristote_dispatcher.Sender.Access.{
  authorize, Admission, refused, admitted, routing_modes, arguments, is_hosted, admit_hosted,
  check_host, check_mode, requested_mode, after_search, admit_model, admission,
}

abbrev pub busy : User → Reply
busy user = error (if user.client_type == some "chat" then 200 else 503)

abbrev pub bearer_of : Option String → Option String
bearer_of none = none
bearer_of (some token) = if token == "" then none else some token

abbrev pub forwarded_body : JsonBody → Option ℕ → JsonBody
forwarded_body json none = json
forwarded_body json (some priority) = record json { priority = some priority }

abbrev pub metric_of : User → CallArguments → MessageData → String → Metric
metric_of user args p url = record {
  user_name = user.name;
  user_organization = user.organization;
  model = args.model;
  server = url;
  server_organization = p.llm_organization;
  strategy = p.strategy;
  requeue_count = p.requeue_count;
  max_parallel_requests = p.max_parallel_requests;
  current_parallel_requests = p.current_parallel_requests;
  priority = args.priority;
  performance_score = p.performance_score;
  routing_mode = args.routing_mode;
}

abbrev pub forward :
    Request → User → JsonBody → CallArguments → IncomingMessage → MessageData → String → Forwarded
forward r user json args m p url = record {
  url = url;
  path = r.path;
  content_type = or_default r.content_type "application/json";
  bearer = bearer_of p.llm_token;
  body = forwarded_body json p.forwarded_priority;
  stream = or_default json.stream true;
  metric = metric_of user args p url;
  completion =
      ("message_id", some (or_default m.correlation_id "None"))
      ∷ ("model", some args.model)
      ∷ ("user", some user.name)
      ∷ ("server", some url)
      ∷ [];
}

abbrev pub reply_with :
    Request
    → User
    → JsonBody
    → CallArguments
    → IncomingMessage
    → MessageData
    → Option String
    → Reply
reply_with r user json args m p none = busy user
reply_with r user json args m p (some url) = streamed (forward r user json args m p url)

abbrev pub read_answer :
    Request → User → JsonBody → CallArguments → IncomingMessage → Body → Result Failure Reply
read_answer r user json args m (raw text) = raised (failed json_decode_error)
read_answer r user json args m (object fields) = ok (error 500)
read_answer r user json args m (llm_params p) = ok (reply_with r user json args m p p.llm_url)

-- `proxy` from the end of the call. The request to the inference server returns.
unfoldable pub conclude : Request → User → JsonBody → CallArguments → Outcome → Result Failure Reply
conclude r user json args (call_result success) = raised server_error
conclude r user json args (call_result queue_overloaded) = ok (busy user)
conclude r user json args (call_result timeout) = ok (busy user)
conclude r user json args (response m) = read_answer r user json args m m.body

abbrev pub after_call :
    Request → User → JsonBody → CallArguments → Result Failure Outcome → Handler Reply
after_call r user json args (ok outcome) w = (conclude r user json args outcome, w)
after_call r user json args (raised channel_closed) w =
    (ok (error 404), record w { refresh_tasks = w.refresh_tasks + 1 })
after_call r user json args (raised server_error) w = (raised server_error, w)
after_call r user json args (raised (failed e)) w = (raised (failed e), w)

abbrev pub serve_admission :
    Backend
    → Request
    → User
    → JsonBody
    → Result Failure Admission × Sender
    → Result Failure Reply × Sender
serve_admission b r user json (raised e, w) = (raised e, w)
serve_admission b r user json (ok (refused status), w) = (ok (error status), w)
serve_admission b r user json (ok (admitted args), w) = after_call r user json args (b.call args) w

abbrev pub serve : Backend → Request → User → Option JsonBody → Handler Reply
serve b r user none w = (ok (error 400), w)
serve b r user (some json) w = serve_admission b r user json (admission b user json w)

abbrev pub serve_authorized : Backend → Request → Result HttpException User → Handler Reply
serve_authorized b r (raised e) w = (ok (error 401), w)
serve_authorized b r (ok user) w =
    if r.method == "GET" then (ok next, w) else serve b r user r.body w

unfoldable pub proxy : Backend → Request → Handler Reply
proxy b r w =
    if r.method == "GET" && r.path == "/health/liveness"
    then (ok (plain 200), w)
    else if r.method == "GET" && r.path == "/health/readiness"
    then (ok (plain (if b.connected then 200 else 503)), w)
    else serve_authorized b r (authorize b r) w
