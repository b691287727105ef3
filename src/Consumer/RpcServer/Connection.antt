-- ===== src/Consumer/RpcServer/Connection.antt =====
-- rpc_server.py: `first_connect` and `reconnect_callback`, as the calls of aio_pika that they make. Which of
-- them return is a parameter.
pub mod Consumers
use aristote_dispatcher.Common.{
  ℕ, suc, ◌+◌, ◌≡◌, refl, sym, ap, ◌∙◌, String, Bool, true, false, Option, none, some, List, [],
  ◌∷◌, ◌++◌, arith, length, if◌then◌else◌,
}
use Prim.Native.String.{◌++◌ as str_append}
use aristote_dispatcher.Common.Exec.{Exec, ok, raised, modify, gets, ◌>>=◌, ◌>>◌}
use aristote_dispatcher.Consumer.Exceptions.{Exception, rejected}
use aristote_dispatcher.Consumer.Server.{VllmServer}
use aristote_dispatcher.Consumer.Settings.{Settings}
use aristote_dispatcher.Consumer.RpcServer.State.{RpcServer, check_connection}

-- The callbacks that are given to `consume`.
pub data Callback : Type 0 where
  on_message on_completion server_specific : Callback

pub data Call : Type 0 where
  connect open_channel : Call
  set_qos : (prefetch_count : ℕ) → Call
  declare_queue : String → List (String × ℕ) → Call
  consume : String → Callback → Call

-- The settings of the queues.
pub record Limits : Type 0 where
  pub rpc_queue_expiration : ℕ
  pub rpc_message_expiration : ℕ
  pub rpc_max_priority : ℕ

-- The server object, and the calls that returned so far.
pub record Session : Type 0 where
  pub rpc : RpcServer
  pub calls : List Call

abbrev pub Connecting : Type 0
Connecting = Exec Exception Session Unit

abbrev call : (Call → Bool) → Call → Connecting
call returns c s =
    if returns c then (ok tt, record s { calls = s.calls ++ c ∷ [] }) else (raised rejected, s)

abbrev set_rpc : (RpcServer → RpcServer) → Connecting
set_rpc f = modify (λ s. record s { rpc = f s.rpc })

abbrev pub main_arguments : Limits → List (String × ℕ)
main_arguments l =
    ("x-expires", l.rpc_queue_expiration)
    ∷ ("x-message-ttl", l.rpc_message_expiration)
    ∷ ("x-max-priority", l.rpc_max_priority)
    ∷ []

abbrev pub expiring : Limits → List (String × ℕ)
expiring l = ("x-expires", l.rpc_queue_expiration) ∷ []

abbrev pub completed_queue : String → String
completed_queue model = str_append model "_completed"

abbrev pub private_queue : String → VllmServer → String
private_queue model s = str_append model (str_append "_" (str_append s.organization "_private"))

-- A new channel of the connection, with the model's queue on it.
abbrev open_main : (Call → Bool) → Limits → String → Connecting
open_main returns l model = do
  call returns open_channel
  set_rpc (λ r. record r { channel = some false })
  call returns (set_qos 1)
  call returns (declare_queue model (main_arguments l))
  set_rpc (λ r. record r { queue = some model })
  call returns (consume model on_message)

unfoldable pub consume_private : (Call → Bool) → Limits → String → List VllmServer → Connecting
consume_private returns l model [] s = (ok tt, s)
consume_private returns l model (server ∷ servers) s =
    (do
      call returns (declare_queue (private_queue model server) (expiring l))
      call returns (consume (private_queue model server) server_specific)
      consume_private returns l model servers)
      s

unfoldable pub first_connect : (Call → Bool) → Limits → Connecting
first_connect returns l = do
  settings ← gets (λ s. s.rpc.settings)
  call returns connect
  set_rpc (λ r. record r { connection = some false })
  open_main returns l settings.model
  call returns (declare_queue (completed_queue settings.model) (expiring l))
  call returns (consume (completed_queue settings.model) on_completion)
  consume_private returns l settings.model settings.vllm_servers

-- `reconnect_callback`, with the connection that aio_pika hands to it.
unfoldable pub reconnect_callback : (Call → Bool) → Limits → Connecting
reconnect_callback returns l = do
  settings ← gets (λ s. s.rpc.settings)
  set_rpc (λ r. record r { connection = some false })
  open_main returns l settings.model

-- The object when it is connected.
abbrev pub connected : RpcServer → RpcServer
connected r = record r {
  connection = some false;
  channel = some false;
  queue = some r.settings.model;
}

abbrev pub private_calls : Limits → String → List VllmServer → List Call
private_calls l model [] = []
private_calls l model (s ∷ servers) =
    declare_queue (private_queue model s) (expiring l)
    ∷ consume (private_queue model s) server_specific
    ∷ private_calls l model servers

abbrev main_calls : Limits → String → List Call
main_calls l model =
    open_channel
    ∷ set_qos 1
    ∷ declare_queue model (main_arguments l)
    ∷ consume model on_message
    ∷ []

abbrev pub all_calls : Limits → Settings → List Call
all_calls l settings =
    connect ∷ main_calls l settings.model
    ++ declare_queue (completed_queue settings.model) (expiring l)
      ∷ consume (completed_queue settings.model) on_completion
      ∷ private_calls l settings.model settings.vllm_servers

-- How many consumers hand out messages that are answered, each a message at a time.
unfoldable pub slots : List Call → ℕ
slots [] = 0
slots (consume queue on_message ∷ calls) = suc (slots calls)
slots (consume queue server_specific ∷ calls) = suc (slots calls)
slots (consume queue on_completion ∷ calls) = slots calls
slots (connect ∷ calls) = slots calls
slots (open_channel ∷ calls) = slots calls
slots (set_qos n ∷ calls) = slots calls
slots (declare_queue queue arguments ∷ calls) = slots calls
