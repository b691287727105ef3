-- ===== src/Consumer/RpcServer/State.antt =====
-- rpc_server.py: the state of the consumer, and what its callbacks do to it. An action of `Rpc` mutates
-- the server object and leaves a trace of what it asked of the broker and of the event loop; both come
-- back beside an exception too.
use aristote_dispatcher.Common.{
  String, string_eq, Bool, false, not, ◌&&◌, Option, none, some, List, [], ◌∷◌, option_eq,
  if◌then◌else◌,
}
use aristote_dispatcher.Common.Dict.{lookup, insert, add, discard}
use aristote_dispatcher.Common.Exec.{Exec, Result, ok, raised, lift, modify, ◌>>=◌}
use aristote_dispatcher.Common.Float.{float_eq}
use aristote_dispatcher.Consumer.Broker.{Io, Effect}
use aristote_dispatcher.Consumer.Exceptions.{Exception, key_error, attribute_error}
use aristote_dispatcher.Consumer.Policy.{QualityOfServicePolicy}
use aristote_dispatcher.Consumer.Priority.{PriorityHandler}
use aristote_dispatcher.Consumer.Server.{VllmServer, server_eq}
use aristote_dispatcher.Consumer.Settings.{Settings}
use aristote_dispatcher.Consumer.Strategy.{Strategy}

-- `connection` and `channel` hold whether the object is closed; `queue` the name of the model's queue.
pub record RpcServer : Type 0 where
  pub settings : Settings
  pub strategy : Strategy
  pub quality_of_service_policy : QualityOfServicePolicy
  pub priority_handler : PriorityHandler
  pub connection : Option Bool
  pub channel : Option Bool
  pub queue : Option String
  pub current_parallel_requests : List (VllmServer × List String)

abbrev pub empty_counters : List VllmServer → List (VllmServer × List String)
empty_counters [] = []
empty_counters (s ∷ servers) = insert s [] (empty_counters servers)

-- `__init__`
unfoldable pub new_rpc_server :
    Settings → Strategy → QualityOfServicePolicy → PriorityHandler → RpcServer
new_rpc_server settings strategy policy handler = record {
  settings = settings;
  strategy = strategy;
  quality_of_service_policy = policy;
  priority_handler = handler;
  connection = none;
  channel = none;
  queue = none;
  current_parallel_requests = empty_counters settings.vllm_servers;
}

pub record World : Type 0 where
  pub rpc : RpcServer
  pub trace : List Effect

abbrev pub Rpc : Type 0 → Type 0
Rpc A = Exec Exception World A

abbrev pub put_trace :
    {A : Type 0} → World → Result Exception A × List Effect → Result Exception A × World
put_trace w (r, t) = (r, record w { trace = t })

abbrev pub io : {A : Type 0} → Io A → Rpc A
io m w = put_trace w (m w.trace)

abbrev pub put_strategy :
    {A : Type 0} → World → Result Exception A × Strategy → Result Exception A × World
put_strategy w (r, s) = (r, record w { rpc = record w.rpc { strategy = s } })

abbrev pub with_strategy : {A : Type 0} → Exec Exception Strategy A → Rpc A
with_strategy m w = put_strategy w (m w.rpc.strategy)

abbrev pub or_raise : {A : Type 0} → Option A → Exception → Result Exception A
or_raise none e = raised e
or_raise (some a) e = ok a

-- `self.current_parallel_requests[server]`
abbrev pub requests_of : VllmServer → World → Result Exception (List String)
requests_of s w = or_raise (lookup s w.rpc.current_parallel_requests) key_error

abbrev pub parallel_requests : VllmServer → Rpc (List String)
parallel_requests s w = lift (requests_of s w) w

-- `self.channel.default_exchange`
abbrev pub default_exchange : Rpc Bool
default_exchange w = lift (or_raise w.rpc.channel attribute_error) w

abbrev pub put_requests : VllmServer → List String → RpcServer → RpcServer
put_requests s ids r = record r {
  current_parallel_requests = insert s ids r.current_parallel_requests;
}

abbrev pub set_requests : VllmServer → List String → Rpc Unit
set_requests s ids = modify (λ w. record w { rpc = put_requests s ids w.rpc })

-- `self.current_parallel_requests[server].add(id)` and `.discard(id)`
abbrev pub add_request : VllmServer → String → Rpc Unit
add_request s id = do ids ← parallel_requests s; set_requests s (add id ids)

abbrev pub discard_request : VllmServer → String → Rpc Unit
discard_request s id = do ids ← parallel_requests s; set_requests s (discard id ids)

-- `_expire_request`, behind its sleep.
unfoldable pub expire_request : VllmServer → String → Rpc Unit
expire_request s id = discard_request s id

abbrev pub is_open : Option Bool → Bool
is_open none = false
is_open (some closed) = not closed

unfoldable pub check_connection : RpcServer → Bool
check_connection r = is_open r.connection && is_open r.channel

-- `close`; `closes` says whether the connection's own `close` returns.
unfoldable pub close : Bool → RpcServer → RpcServer
close closes r =
    if check_connection r && closes then record r { connection = none; channel = none } else r
