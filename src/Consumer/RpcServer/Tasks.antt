-- ===== src/Consumer/RpcServer/Tasks.antt =====
-- rpc_server.py: the callbacks as tasks of the event loop. A callback that answers a request is suspended
-- twice, at the publication of its answer and at the acknowledgement, and other callbacks run meanwhile.
-- What it does between two of these is one step, and what it awaits is in the trace from the step that ends
-- the await. The completion callback and the expiry of a request change the counters in one step, the task
-- that requeues a message leaves them alone, and the rounds of the pinger and of the metrics tracker change
-- the strategy that the callbacks ask. `Sequential` has runs with no interruption, `Bounds` what holds in
-- every run, with `Count`, `Decided`, `Near` and `Resume`.
pub mod Sequential
pub mod Count
pub mod Decided
pub mod Near
pub mod Resume
pub mod Bounds
use aristote_dispatcher.Common.{
  true, ℕ, zero, suc, ltb, String, string_eq, Bool, Option, none, some, List, [], ◌∷◌, ◌++◌, length,
  get_elem?, set, remove_at, if◌then◌else◌,
}
use aristote_dispatcher.Common.Exec.{Result, ok, raised}
use aristote_dispatcher.Consumer.Broker.{Broker, publish, ack}
use aristote_dispatcher.Consumer.Exceptions.{Exception}
use aristote_dispatcher.Consumer.Message.{IncomingMessage, MessageData}
use aristote_dispatcher.Consumer.Pinger.{Ping, ServerPinger, monitor_servers}
use aristote_dispatcher.Consumer.Strategy.{Strategy, round_robin, least_busy}
use aristote_dispatcher.Consumer.Strategy.Tracker.{Fetch, after_round, monitor_server}
use aristote_dispatcher.Consumer.Server.{VllmServer, server_eq}
use aristote_dispatcher.Consumer.RpcServer.Answer.{Decision, answer, decide, register}
use aristote_dispatcher.Consumer.RpcServer.Callbacks.{decide_private, on_completion_callback}
use aristote_dispatcher.Consumer.RpcServer.State.{World, io, expire_request}

-- Which `await` the callback waits at.
pub data Stage : Type 0 where
  publishing acking : Stage

-- A suspended callback, with the local variables that it still reads.
pub record Task : Type 0 where
  pub message : IncomingMessage
  pub server : Option VllmServer
  pub params : MessageData
  pub stage : Stage

pub record Machine : Type 0 where
  pub world : World
  pub tasks : List Task

abbrev pub suspend :
    Option Bool → IncomingMessage → Option VllmServer → MessageData → List Task → List Task
suspend none m s params tasks = tasks
suspend (some closed) m s params tasks =
    tasks ++ record { message = m; server = s; params = params; stage = publishing } ∷ []

-- The callback up to its first `await`. Without a channel its `default_exchange` raises.
abbrev pub begin : IncomingMessage → List Task → Result Exception Decision × World → Machine
begin m tasks (raised e, w) = record { world = w; tasks = tasks }
begin m tasks (ok none, w) = record { world = w; tasks = tasks }
begin m tasks (ok (some (s, params)), w) = record {
  world = w;
  tasks = suspend w.rpc.channel m s params tasks;
}

abbrev pub published : ℕ → Task → Machine → Result Exception Unit × World → Machine
published i t c (raised e, w) = record { world = w; tasks = remove_at c.tasks i }
published i t c (ok u, w) = record {
  world = w;
  tasks = set c.tasks i (record t { stage = acking });
}

abbrev pub acknowledged : ℕ → Task → Machine → Result Exception Unit × World → Machine
acknowledged i t c (raised e, w) = record { world = w; tasks = remove_at c.tasks i }
acknowledged i t c (ok u, w) = record {
  world = (register t.message t.server w).1;
  tasks = remove_at c.tasks i;
}

abbrev pub advance_from : Broker → ℕ → Task → Machine → Stage → Machine
advance_from broker i t c publishing =
    published i t c (io (publish broker (answer t.message t.params) t.message.reply_to) c.world)
advance_from broker i t c acking = acknowledged i t c (io (ack broker t.message) c.world)

abbrev pub advance_found : Broker → ℕ → Machine → Option Task → Machine
advance_found broker i c none = c
advance_found broker i c (some t) = advance_from broker i t c t.stage

-- The i-th suspended callback goes on to its next `await` or to its end.
unfoldable pub advance : Broker → ℕ → Machine → Machine
advance broker i c = advance_found broker i c (get_elem? c.tasks i)

pub data Event : Type 0 where
  arrival : ℕ → IncomingMessage → Event
  private_arrival : ℕ → IncomingMessage → Event
  resumption : ℕ → Event
  completion : IncomingMessage → Event
  expiry : VllmServer → String → Event
  pinged : (VllmServer → Ping) → Event
  measured : String → Fetch → Event

-- A round of the pinger, which has the servers of the settings, and one of the tracker, if there is one.
abbrev pub with_ping : (VllmServer → Ping) → World → World
with_ping ping w =
    let pinger : ServerPinger = record {
      servers_to_monitor = w.rpc.settings.vllm_servers;
      monitoring = true;
    } in
    record w { rpc = record w.rpc { strategy = monitor_servers pinger ping w.rpc.strategy } }

abbrev pub with_round : String → Fetch → Strategy → Strategy
with_round url fetch (round_robin s) = round_robin s
with_round url fetch (least_busy s) =
    least_busy (record s { tracker = after_round s.tracker (monitor_server s.tracker url fetch) })

abbrev pub with_metrics : String → Fetch → World → World
with_metrics url fetch w = record w {
  rpc = record w.rpc { strategy = with_round url fetch w.rpc.strategy };
}

-- `prefetch_count` keeps the broker from delivering a message while as many as `slots` are not done with.
unfoldable pub step : Broker → ℕ → Event → Machine → Machine
step broker slots (arrival pick m) c =
    if ltb (length c.tasks) slots then begin m c.tasks (decide pick m c.world) else c
step broker slots (private_arrival pick m) c =
    if ltb (length c.tasks) slots then begin m c.tasks (decide_private pick m c.world) else c
step broker slots (resumption i) c = advance broker i c
step broker slots (completion m) c = record c {
  world = (on_completion_callback broker m c.world).1;
}
step broker slots (expiry s id) c = record c { world = (expire_request s id c.world).1 }
step broker slots (pinged ping) c = record c { world = with_ping ping c.world }
step broker slots (measured url fetch) c = record c { world = with_metrics url fetch c.world }

unfoldable pub run : Broker → ℕ → List Event → Machine → Machine
run broker slots [] c = c
run broker slots (e ∷ es) c = run broker slots es (step broker slots e c)
