-- ===== src/Sender/App.antt =====
-- sender/main.py: `lifespan` and the two endpoints of the models, and sender/db.py. The calls of SQLAlchemy and
-- of aio_pika that return are parameters, and so is what the requests served do to the process.
pub mod Lifespan
use aristote_dispatcher.Common.{
  String, Bool, true, false, ◌&&◌, Option, none, some, List, [], ◌∷◌, if◌then◌else◌,
}
use aristote_dispatcher.Common.Exec.{Exec, Result, ok, raised, pure, raise, modify, ◌>>=◌, ◌>>◌}
use aristote_dispatcher.Consumer.Exceptions.{Exception, type_error, attribute_error, rejected}
use aristote_dispatcher.Sender.Models.{Model, get_models, get_model_by_id}
use aristote_dispatcher.Sender.RpcClient
use aristote_dispatcher.Sender.RpcClient.{RpcClient}
use aristote_dispatcher.Sender.RpcClient.Connection.{Step, first_connect}

-- What the endpoints answer: each model with the key "object", and the object "error" with status 404.
pub data Content : Type 0 where
  listed : List Model → Content
  found : Model → Content
  not_found : (model_id : String) → Content

unfoldable pub models : Result Exception (List String) → Exec Exception (List Model) Content
models fetch = get_models fetch >>= λ ms. pure (listed ms)

abbrev model_content : String → Option Model → Content
model_content model_id none = not_found model_id
model_content model_id (some m) = found m

unfoldable pub model : Result Exception (List String) → String → Exec Exception (List Model) Content
model fetch model_id =
    get_model_by_id fetch model_id >>= λ answer. pure (model_content model_id answer)

-- The calls of SQLAlchemy.
pub data DbCall : Type 0 where
  create_engine select_one dispose : DbCall

-- Whether the engine was disposed of.
pub record Database : Type 0 where
  pub disposed : Bool

-- `Database.__init__`, whose handlers raise the exception again.
abbrev pub new_database : (DbCall → Bool) → Result Exception Database
new_database returns =
    if returns create_engine && returns select_one
    then ok (record { disposed = false })
    else raised rejected

-- `Database.close`
abbrev pub close_database : (DbCall → Bool) → Exec Exception Database Unit
close_database returns db =
    if returns dispose then (ok tt, record db { disposed = true }) else (raised rejected, db)

-- A queue that is not there yet has the empty name.
abbrev pub new_rpc_client : RpcClient
new_rpc_client = record { futures = []; callback_queue = ""; connection = none; channel = none }

-- The two globals.
pub record App : Type 0 where
  pub database : Option Database
  pub rpc_client : Option RpcClient

abbrev connected : App → Result Exception Unit × RpcClient → Result Exception Unit × App
connected app (result, client) = (result, record app { rpc_client = some client })

abbrev connect_client : (Step → Bool) → String → Exec Exception App Unit
connect_client returns queue app = connected app (first_connect returns queue new_rpc_client)

abbrev open_database : Result Exception Database → Exec Exception App Unit
open_database (ok db) app = (ok tt, record app { database = some db })
open_database (raised e) app = (raised e, app)

abbrev closed : App → Result Exception Unit × Database → Result Exception Unit × App
closed app (result, db) = (result, record app { database = some db })

abbrev close_engine : (DbCall → Bool) → Option Database → Exec Exception App Unit
close_engine returns none app = (raised attribute_error, app)
close_engine returns (some db) app = closed app (close_database returns db)

abbrev close_client : Bool → Option RpcClient → Exec Exception App Unit
close_client closes none app = (raised attribute_error, app)
close_client closes (some client) app =
    (ok tt, record app { rpc_client = some (RpcClient.close closes client) })

-- `await None`
abbrev await_none : Exec Exception App Unit
await_none = raise type_error

abbrev pub start_up : (DbCall → Bool) → (Step → Bool) → String → Exec Exception App Unit
start_up db_returns returns queue = do
  open_database (new_database db_returns)
  connect_client returns queue

-- `await database.close()` and `await rpc_client.close()`: the first awaits what `close` returns.
abbrev pub shut_down : (DbCall → Bool) → Bool → Exec Exception App Unit
shut_down db_returns closes = do
  (λ app. close_engine db_returns app.database app)
  await_none
  (λ app. close_client closes app.rpc_client app)

abbrev serving : (RpcClient → RpcClient) → Option RpcClient → App → App
serving meanwhile none app = app
serving meanwhile (some client) app = record app { rpc_client = some (meanwhile client) }

-- `meanwhile` is what happens to the client while the process serves requests.
unfoldable pub lifespan :
    (DbCall → Bool)
    → (Step → Bool)
    → String
    → (RpcClient → RpcClient)
    → Bool
    → Exec Exception App Unit
lifespan db_returns returns queue meanwhile closes = do
  start_up db_returns returns queue
  modify (λ app. serving meanwhile app.rpc_client app)
  shut_down db_returns closes
