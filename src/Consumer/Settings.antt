-- ===== src/Consumer/Settings.antt =====
-- settings.py and constants.py: what the environment configures, read once when the process starts.
-- `json.loads` and `urlparse` are applied before: a text that is no JSON object is `none`, and each
-- server of the object stands with the scheme and the host that its key was parsed into.
-- The proofs are in `Servers`.
pub mod Servers
use aristote_dispatcher.Common.{
  ℕ, String, string_eq, Option, option_eq, none, some, List, [], ◌∷◌, ◌==◌, if◌then◌else◌,
}
use aristote_dispatcher.Common.Dict.{or_default}
use aristote_dispatcher.Common.Exec.{Result, ok, raised}
use aristote_dispatcher.Common.Float.{Float, finite}
use aristote_dispatcher.Common.Int.{pos}
use aristote_dispatcher.Consumer.Exceptions.{Exception, value_error}
use aristote_dispatcher.Consumer.Server.{VllmServer}
use text.Mathlib.Text.{starts_with}

pub record Settings : Type 0 where
  pub model : String
  pub vllm_servers : List VllmServer
  pub routing_strategy : String
  pub best_priority : ℕ
  pub metrics_refresh_rate : ℕ
  pub default_max_parallel_requests : ℕ

-- The configuration of one server, where it is a JSON object whose values have these types or are null. A key
-- that is missing is `none`, one that is null `some none`; a missing token is None in Python as a null one is.
pub record ServerConfig : Type 0 where
  pub organization : Option (Option String)
  pub token : Option String
  pub max_parallel_requests : Option (Option ℕ)

-- A server as the settings construct it: the dataclass does not check types, so that a null comes through.
pub record ConfiguredServer : Type 0 where
  pub url : String
  pub token : Option String
  pub organization : Option String
  pub max_parallel_requests : Option ℕ

pub record RawServer : Type 0 where
  pub url : String
  pub scheme : String
  pub netloc : String
  pub config : Option ServerConfig

abbrev pub with_config : ℕ → RawServer → ServerConfig → Result Exception ConfiguredServer
with_config default_max raw config =
    if starts_with raw.scheme "http"
    then if raw.netloc == ""
      then raised value_error
      else if or_default config.organization (some "") == some ""
      then raised value_error
      else ok (record {
        url = raw.url;
        token = config.token;
        organization = or_default config.organization (some "");
        max_parallel_requests = or_default config.max_parallel_requests (some default_max);
      })
    else raised value_error

abbrev pub configured : ℕ → RawServer → Option ServerConfig → Result Exception ConfiguredServer
configured default_max raw none = raised value_error
configured default_max raw (some config) = with_config default_max raw config

-- One round of the loop of `VLLM_SERVERS`.
unfoldable pub parse_server : ℕ → RawServer → Result Exception ConfiguredServer
parse_server default_max raw = configured default_max raw raw.config

abbrev pub cons_ok :
    Result Exception ConfiguredServer
    → Result Exception (List ConfiguredServer)
    → Result Exception (List ConfiguredServer)
cons_ok (raised e) rest = raised e
cons_ok (ok s) (ok servers) = ok (s ∷ servers)
cons_ok (ok s) (raised e) = raised e

unfoldable pub parse_servers : ℕ → List RawServer → Result Exception (List ConfiguredServer)
parse_servers default_max [] = ok []
parse_servers default_max (raw ∷ raws) =
    cons_ok (parse_server default_max raw) (parse_servers default_max raws)

-- The property `VLLM_SERVERS`; `none` for a variable that is missing, empty or no JSON.
unfoldable pub vllm_servers : ℕ → Option (List RawServer) → Result Exception (List ConfiguredServer)
vllm_servers default_max none = raised value_error
vllm_servers default_max (some raws) = parse_servers default_max raws

-- `validate_threshold`: least-busy has a threshold, 0.1 by default; round-robin has none.
unfoldable pub validate_threshold : String → Option Float → Option Float
validate_threshold routing_strategy threshold =
    if routing_strategy == "least-busy"
    then some (or_default threshold (finite (pos 100000)))
    else none
