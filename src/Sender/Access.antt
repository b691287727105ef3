-- ===== src/Sender/Access.antt =====
-- sender/main.py: `authorize`, and the checks of `proxy` before it calls the consumer. The proofs are in
-- `Admitted`.
pub mod Admitted
use aristote_dispatcher.Common.{
  ℕ, ◌+◌, min, String, string_eq, Bool, true, false, not, ◌&&◌, Option, none, some, List, [], ◌∷◌,
  ◌==◌, option_eq, if◌then◌else◌,
}
use aristote_dispatcher.Common.Dict.{lookup, contains, or_default}
use aristote_dispatcher.Common.Exec.{
  Exec, Result, ok, raised, pure, raise, lift, modify, ◌>>=◌, ◌>>◌,
}
use aristote_dispatcher.Common.Float.{Float}
use aristote_dispatcher.Consumer.Exceptions.{Exception, key_error, json_decode_error}
use aristote_dispatcher.Consumer.Message.{
  Body, raw, object, llm_params, IncomingMessage, MessageData,
}
use aristote_dispatcher.Sender.Models.{Model, get_model_by_id}
use aristote_dispatcher.Sender.RpcClient.{
  Outcome, response, call_result, CallResult, success, queue_overloaded, timeout,
}
use aristote_dispatcher.Sender.Settings.{host_mapping}
use aristote_dispatcher.Sender.Users.{User, find_user}
use aristote_dispatcher.Sender.Http.{
  HttpException, no_token, invalid_token, unauthorized, Failure, server_error, channel_closed,
  failed, JsonBody, Request, Metric, Forwarded, Reply, plain, error, next, streamed, CallArguments,
  Backend, Sender, Handler,
}

abbrev pub user_of : Option User → Result HttpException User
user_of none = raised unauthorized
user_of (some user) = ok user

abbrev pub of_parts : List User → List String → Result HttpException User
of_parts users [] = raised invalid_token
of_parts users (scheme ∷ []) = raised invalid_token
of_parts users (scheme ∷ token ∷ []) =
    if scheme == "Bearer" then user_of (find_user token users) else raised invalid_token
of_parts users (scheme ∷ token ∷ x ∷ parts) = raised invalid_token

unfoldable pub authorize : Backend → Request → Result HttpException User
authorize b r = elim r.authorization [
  | none ↦ raised no_token
  | some header ↦ if header == "" then raised no_token else of_parts b.users (b.split header)
]

pub data Admission : Type 0 where
  refused : ℕ → Admission
  admitted : CallArguments → Admission

abbrev pub routing_modes : List String
routing_modes = "any" ∷ "private-first" ∷ "private-only" ∷ []

abbrev pub arguments : User → JsonBody → String → String → CallArguments
arguments user json model mode = record {
  priority = min (or_default json.priority user.priority) user.priority;
  threshold = or_default user.threshold 0;
  model = model;
  organization = user.organization;
  routing_mode = mode;
}

abbrev pub is_hosted : Option String → List String → Bool
is_hosted none hosts = false
is_hosted (some organization) hosts = contains organization hosts

abbrev pub admit_hosted :
    User → JsonBody → String → String → Option (List String) → Result Failure Admission
admit_hosted user json model mode none = raised (failed key_error)
admit_hosted user json model mode (some hosts) =
    if is_hosted user.organization hosts
    then ok (admitted (arguments user json model mode))
    else ok (refused 400)

abbrev pub check_host :
    Result Exception (List (String × List String))
    → User
    → JsonBody
    → String
    → String
    → Result Failure Admission
check_host (raised e) user json model mode =
    if mode == "any" then ok (admitted (arguments user json model mode)) else raised (failed e)
check_host (ok mapping) user json model mode =
    if mode == "any"
    then ok (admitted (arguments user json model mode))
    else admit_hosted user json model mode (lookup model mapping)

unfoldable pub check_mode :
    Backend → User → JsonBody → String → Option String → Result Failure Admission
check_mode b user json model none = ok (refused 400)
check_mode b user json model (some mode) =
    if contains mode routing_modes
    then check_host (host_mapping b.model_host_mapping) user json model mode
    else ok (refused 400)

abbrev pub requested_mode : User → JsonBody → Option String
requested_mode user json = or_default json.routing_mode (some user.default_routing_mode)

abbrev pub after_search :
    Backend
    → User
    → JsonBody
    → String
    → Sender
    → Result Exception (Option Model) × List Model
    → Result Failure Admission × Sender
after_search b user json model w (raised e, models) =
    (raised (failed e), record w { models = models })
after_search b user json model w (ok none, models) =
    (ok (refused 404), record w { models = models })
after_search b user json model w (ok (some m), models) =
    (check_mode b user json model (requested_mode user json), record w { models = models })

abbrev pub admit_model : Backend → User → JsonBody → Option (Option String) → Handler Admission
admit_model b user json none w = (raised (failed key_error), w)
admit_model b user json (some none) w = (ok (refused 404), w)
admit_model b user json (some (some model)) w =
    if model == ""
    then (ok (refused 404), w)
    else after_search b user json model w (get_model_by_id b.bindings model w.models)

-- `proxy` between reading the body and calling the consumer.
unfoldable pub admission : Backend → User → JsonBody → Handler Admission
admission b user json = admit_model b user json json.model
