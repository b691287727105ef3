-- ===== src/Sender/RpcClient.antt =====
-- sender/rpc_client.py: the sender's half of the call through RabbitMQ. A call is suspended while it
-- waits for its future, so `start_call` is what `call` does before, `response_of` what it returns when
-- the future is done, `cancel_future` what the timeout of `wait_for` does, and `time_out` what the call
-- does when it then resumes. The futures stand in a store of their own: the call keeps its future also
-- when the dictionary lost it.
-- The proofs are in `Calls` and `Runs`.
pub mod Connection
pub mod Calls
pub mod Runs
use aristote_dispatcher.Common.{
  ℕ, ltb, String, string_eq, nat_eq, Bool, true, false, not, ◌&&◌, Option, none, some, List, [],
  ◌∷◌, ◌++◌, ◌==◌, if◌then◌else◌, suc,
}
use Prim.Native.String.{◌++◌ as str_append}
use aristote_dispatcher.Common.Dict.{lookup, insert, remove, or_default}
use aristote_dispatcher.Common.Exec.{
  Exec, Result, ok, raised, pure, raise, modify, gets, try_except, ◌>>=◌, ◌>>◌,
}
use aristote_dispatcher.Consumer.Broker.{Broker, Effect, publish}
use aristote_dispatcher.Consumer.Exceptions.{Exception, key_error, value_error, rejected}
use aristote_dispatcher.Consumer.Message.{Body, raw, object, persistent, IncomingMessage, Message}

pub data CallResult : Type 0 where
  success queue_overloaded timeout : CallResult

pub data Outcome : Type 0 where
  response : IncomingMessage → Outcome
  call_result : CallResult → Outcome

pub data Future : Type 0 where
  pending cancelled : Future
  done : IncomingMessage → Future

-- `futures` holds places of the store. `connection` and `channel` hold whether the object is closed.
pub record RpcClient : Type 0 where
  pub futures : List (String × ℕ)
  pub callback_queue : String
  pub connection : Option Bool
  pub channel : Option Bool

pub record Session : Type 0 where
  pub client : RpcClient
  pub store : List (ℕ × Future)
  pub next : ℕ
  pub trace : List Effect

abbrev pub Call : Type 0 → Type 0
Call A = Exec Exception Session A

abbrev put_sent :
    {A : Type 0} → Session → Result Exception A × List Effect → Result Exception A × Session
put_sent s (r, t) = (r, record s { trace = t })

abbrev pub send : Broker → Message → String → Call Unit
send broker m key s = put_sent s (publish broker m (some key) s.trace)

abbrev pub put_futures : List (String × ℕ) → Session → Session
put_futures futures s = record s { client = record s.client { futures = futures } }

abbrev pub put_future : ℕ → Future → Session → Session
put_future f state s = record s { store = insert f state s.store }

-- `loop.create_future()`
abbrev pub create_future : Call ℕ
create_future s = (ok s.next, record s { store = insert s.next pending s.store; next = suc s.next })

abbrev settle : ℕ → IncomingMessage → Option Future → Call Unit
settle f m (some pending) = modify (put_future f (done m))
settle f m (some cancelled) = raise value_error
settle f m (some (done n)) = raise value_error
settle f m none = raise value_error

-- `future.set_result(message)`: an InvalidStateError unless the future is pending.
abbrev pub set_result : ℕ → IncomingMessage → Call Unit
set_result f m s = settle f m (lookup f s.store) s

abbrev popped : String → Option ℕ → Call ℕ
popped id none s = (raised key_error, s)
popped id (some f) s = (ok f, put_futures (remove id s.client.futures) s)

-- `self.futures.pop(id)`
abbrev pub pop_future : String → Call ℕ
pop_future id s = popped id (lookup id s.client.futures) s

abbrev pub resolve : Option String → IncomingMessage → Call Unit
resolve none m = pure tt
resolve (some id) m = do f ← pop_future id; set_result f m

unfoldable pub on_response : IncomingMessage → Call Unit
on_response m = resolve m.correlation_id m

abbrev pub requested : Body → Option String → String → ℕ → Message
requested body id queue priority = record {
  body = body;
  headers = ("x-requeue-count", 0) ∷ [];
  content_type = none;
  correlation_id = id;
  delivery_mode = persistent;
  priority = some priority;
  reply_to = some queue;
}

-- The body and the routing key of a request for that model. A user without an organization is written
-- "None" into the key.
abbrev pub request_body : String → Option String → Body
request_body mode organization =
    if mode == "any"
    then raw "AVAILABLE?"
    else object (("routing_mode", some mode) ∷ ("organization", organization) ∷ [])

abbrev pub private_key : String → Option String → String
private_key model organization =
    str_append model (str_append "_" (str_append (or_default organization "None") "_private"))

abbrev pub request_key : String → Option String → String → String
request_key model organization mode =
    if mode == "any" then model else private_key model organization

abbrev pub register_future : String → ℕ → Call Unit
register_future id f s = (ok tt, put_futures (insert id f s.client.futures) s)

-- `call` up to its `wait_for`: the future to wait for, or the result of a queue with too many messages.
-- `depth` is what the broker counts in the model's queue, `none` where that queue is gone; `id` is the new
-- correlation id.
unfoldable pub start_call :
    Broker → String → Option ℕ → ℕ → ℕ → String → Option String → String → Call (Option ℕ)
start_call broker id none priority threshold model organization mode s = (raised rejected, s)
start_call broker id (some depth) priority threshold model organization mode s =
    if ltb threshold depth
    then (ok none, s)
    else (do
      f ← create_future
      register_future id f
      queue ← gets (λ t. t.client.callback_queue)
      send broker (requested (request_body mode organization) (some id) queue priority)
          (request_key model organization mode)
      pure (some f))
        s

abbrev outcome_of : Option Future → Option Outcome
outcome_of (some (done m)) = some (response m)
outcome_of (some pending) = none
outcome_of (some cancelled) = none
outcome_of none = none

-- What the waiting call returns, once its future is done.
unfoldable pub response_of : ℕ → Session → Option Outcome
response_of f s = outcome_of (lookup f s.store)

abbrev cancelled_if_pending : ℕ → Option Future → Session → Session
cancelled_if_pending f (some pending) s = put_future f cancelled s
cancelled_if_pending f (some cancelled) s = s
cancelled_if_pending f (some (done m)) s = s
cancelled_if_pending f none s = s

-- The timeout of `wait_for` passes: it cancels the future, which does nothing to one that is done. The call
-- resumes only later, with `time_out`.
unfoldable pub cancel_future : ℕ → Session → Session
cancel_future f s = cancelled_if_pending f (lookup f s.store) s

-- `except asyncio.TimeoutError`: the call takes its future out of the dictionary if it is there.
unfoldable pub time_out : String → Call Outcome
time_out id s = (ok (call_result timeout), put_futures (remove id s.client.futures) s)

-- The message that tells the consumer that a request is over.
abbrev pub completion : List (String × Option String) → Message
completion payload = record {
  body = object payload;
  headers = [];
  content_type = none;
  correlation_id = none;
  delivery_mode = persistent;
  priority = none;
  reply_to = none;
}

abbrev swallow : Exception → Call Unit
swallow e = pure tt

unfoldable pub send_completion_message : Broker → String → List (String × Option String) → Call Unit
send_completion_message broker model payload =
    try_except (send broker (completion payload) (str_append model "_completed")) swallow

abbrev is_open : Option Bool → Bool
is_open none = false
is_open (some closed) = not closed

unfoldable pub check_connection : RpcClient → Bool
check_connection c = is_open c.connection && is_open c.channel

-- `close`; `closes` says whether the queue's `cancel` and the connection's `close` return.
unfoldable pub close : Bool → RpcClient → RpcClient
close closes c =
    if check_connection c && closes then record c { connection = none; channel = none } else c
