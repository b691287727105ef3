-- ===== src/Sender/RpcClient/Runs.antt =====
-- The futures of the calls, over any order of calls, responses, timeouts and reconnections.
-- The proofs are in `Tracked`.
pub mod Tracked
use aristote_dispatcher.Common.{
  ℕ, Bool, ◌<◌, ◌≡◌, ◌≢◌, refl, sym, ap, ◌∙◌, ltb, ◌==◌, ◌⊎◌, inl, inr, Option, true, some, none,
  List, [], ◌∷◌, ◌++◌, arith, Bool-cases, Option-cases, String, string_eq, nat_eq, eq_iff,
  nat_beq_iff,
}
use aristote_dispatcher.Common.Dict.{
  lookup, remove, lookup-insert, lookup-remove, lookup-insert_cases, contains, discard,
  contains-discard,
}
use aristote_dispatcher.Common.Exec.{Result, ok, raised}
use aristote_dispatcher.Consumer.Broker.{Broker, Effect, published}
use aristote_dispatcher.Consumer.Exceptions.{key_error, value_error}
use aristote_dispatcher.Consumer.Message.{IncomingMessage}
use aristote_dispatcher.Sender.RpcClient.{
  RpcClient, Session, Future, pending, cancelled, done, response, response_of, start_call,
  on_response, cancel_future, time_out, put_future, put_futures, resolve, requested, request_body,
  request_key,
}
use aristote_dispatcher.Sender.RpcClient.Connection.{
  Step, reconnect_callback, reconnect_callback_futures,
}
use aristote_dispatcher.Sender.RpcClient.Calls.{IsSeparate, IsLinked, on_response_lem, fresh_call}

pub data Event : Type 0 where
  called : String → Option ℕ → ℕ → ℕ → String → Option String → String → Event
  answered : IncomingMessage → Event
  expired resumed : String → Event
  reconnected : (Step → Bool) → String → Event

-- `resuming` has the ids of the calls whose timeout passed and that did not run since.
pub record Running : Type 0 where
  pub session : Session
  pub resuming : List String

abbrev pub cancel_found : Option ℕ → Session → Session
cancel_found none s = s
cancel_found (some f) s = cancel_future f s

-- A call changes the dictionary at one point only before it waits, where it registers its future, so that all
-- of it up to there is one step. A call that expires has its future in the dictionary, unless the response
-- popped it: each call draws an id of its own.
abbrev pub step : Broker → Event → Running → Running
step b (called id depth priority threshold model organization mode) c = record c {
  session = (start_call b id depth priority threshold model organization mode c.session).1;
}
step b (answered m) c = record c { session = (on_response m c.session).1 }
step b (expired id) c = record {
  session = cancel_found (lookup id c.session.client.futures) c.session;
  resuming = id ∷ c.resuming;
}
step b (resumed id) c = record {
  session = (time_out id c.session).1;
  resuming = discard id c.resuming;
}
step b (reconnected returns queue) c = record c {
  session = record c.session { client = (reconnect_callback returns queue c.session.client).1 };
}

unfoldable pub run : Broker → List Event → Running → Running
run b [] c = c
run b (e ∷ es) c = run b es (step b e c)
