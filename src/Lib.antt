-- ===== src/Lib.antt =====
-- Aristote Dispatcher: an HTTP proxy that spreads requests for language models over inference servers.
--
-- A user's request comes to the sender (src/sender). Its middleware checks the user and the request, and
-- calls the consumer of the model through RabbitMQ; the consumer (src/consumer) answers with the url of an
-- inference server, the sender forwards the request there, and a completion message tells the consumer
-- that the server is free again. The library has a module for each part:
--   Common                   the shared types: numbers, lists, signed integers, floats, dictionaries,
--                            and `Exec`, statements that mutate an object and may raise
--   Consumer.RpcServer       src/consumer/rpc_server.py: `State` the object and its small operations,
--                            `Answer`, `Duplicates` and `Callbacks` the callbacks, `Events` their runs
--                            as one step each, `Tasks` as tasks that interleave, `Connection` the
--                            queues and their consumers; `Consult`, `Fate`,
--                            `Delivery`, `Completion`, `InFlight`, `Expiry`, `Private` and the children
--                            of `Tasks` the proofs
--   Consumer.Policy          src/consumer/quality_of_service_policy
--   Consumer.Priority        src/consumer/priority_handler
--   Consumer.Strategy        src/consumer/strategy: round-robin, least-busy, the tracker of the metrics
--   Consumer.Pinger          src/consumer/server_pinger.py and the waits of src/consumer/metrics.py
--   Consumer.Main            src/consumer/main.py, with `RpcServer.Connection`
--   Consumer.Settings, Server, Exceptions, Message, Broker   what the other modules share
--   Sender.RpcClient         src/sender/rpc_client.py
--   Sender.Models            src/sender/models.py
--   Sender.Settings          src/sender/settings.py
--   Sender.Users             src/sender/command/manage_users.py
--   Sender.Http, Access, Proxy, Usage, App   src/sender/main.py; the database of src/sender/db.py in App
--   Dispatch                 a call through both processes, and the models that one lists of the other's queues
--   Migrations               alembic/versions, and the columns of src/sender/entities
--   Examples in Consumer, Dispatch, Migrations and Sender   the theorems at concrete inputs
--
-- Operations have the names of the source. A method that mutates its object is a function of `Exec`: it
-- takes the object and gives the result or the exception beside the object as it is then. The consumer's
-- world is its server object and the trace of what it asked of the broker and of the event loop. In
-- `Events` a callback is one step; in `Tasks` it is suspended at its two awaits, and any events may come
-- in between, with as many callbacks at a time as there are consumers with a `prefetch_count` of 1. The
-- monitoring tasks of the tracker interleave by their rounds. A call of the sender is a step up to its
-- wait, then the response, or the timeout that cancels its future and the step in which the call resumes
-- after that; these interleave with the steps of other calls.
--
-- Parameters stand for what the code only calls: the broker (which publications and acknowledgements
-- return), `random.choice`, the HTTP clients, the database's verdict on a row, the management interface of
-- RabbitMQ, the text functions of Python, Alembic's operations on a database. JSON texts are represented
-- by the values that are read from them, a null where the code takes one over. Floats are whole numbers of millionths or infinity; priorities,
-- counts and delays are natural numbers.
--
-- Each loop is over a list, and `wait_for_vllm` over the number of its retries. The history of the revisions
-- follows their links with as much fuel as there are revisions, which is enough to reach the last one.
--
-- Not modelled: the parsing of metrics by regular expressions, the probes, the settings' reading of the
-- environment and that of Alembic, and the SQL scripts from before Alembic.
mod Common
pub mod Consumer
pub mod Dispatch
pub mod Migrations
pub mod Sender
