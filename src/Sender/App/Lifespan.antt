-- ===== src/Sender/App/Lifespan.antt =====
-- How the sender's process ends.
use aristote_dispatcher.Common.{
  ◌≡◌, refl, inl, inr, String, Bool, true, false, ◌&&◌, none, some, Bool-cases, if◌then◌else◌,
}
use aristote_dispatcher.Common.Exec.{Result, ok, raised}
use aristote_dispatcher.Consumer.Exceptions.{Exception, type_error, rejected}
use aristote_dispatcher.Sender.App.{
  DbCall, create_engine, select_one, dispose, App, new_rpc_client, lifespan,
}
use aristote_dispatcher.Sender.RpcClient.{RpcClient}
use aristote_dispatcher.Sender.RpcClient.Connection.{Step, first_connect}

module _ (db_returns : DbCall → Bool) (returns : Step → Bool) (queue : String)
    (meanwhile : RpcClient → RpcClient) where
  -- The exception that ends the lifespan, and the process that it leaves.
  pub data Ends : Result Exception Unit × App → Type 0 where
    unopened :
        (db_returns create_engine && db_returns select_one) ≡ false
        → Ends (raised rejected, record { database = none; rpc_client = none })
    unconnected :
        (e : Exception) (client : RpcClient)
        → first_connect returns queue new_rpc_client ≡ (raised e, client)
        → Ends (
          raised e,
          record { database = some (record { disposed = false }); rpc_client = some client },
        )
    unclosed :
        (client : RpcClient) (disposed : Bool)
        → first_connect returns queue new_rpc_client ≡ (ok tt, client)
        → db_returns dispose ≡ disposed
        → Ends (
          raised (if disposed then type_error else rejected),
          record {
            database = some (record { disposed = disposed });
            rpc_client = some (meanwhile client);
          },
        )

  module _ (closes : Bool) where
    abbrev start : App
    start = record { database = none; rpc_client = none }

    lifespan_opened :
        (out : Result Exception Unit × RpcClient)
        → db_returns create_engine ≡ true
        → db_returns select_one ≡ true
        → first_connect returns queue new_rpc_client ≡ out
        → Ends (lifespan db_returns returns queue meanwhile closes start)
    unfolding lifespan
    lifespan_opened (raised e, client) created selected h =
        rw (created, selected, h) (unconnected e client h)
    lifespan_opened (ok tt, client) created selected h = elim (Bool-cases (db_returns dispose)) [
      | inl disposes ↦ rw (created, selected, h, disposes) (unclosed client true h disposes)
      | inr fails ↦ rw (created, selected, h, fails) (unclosed client false h fails)
    ]

    -- The lifespan never ends without an exception. Where the database cannot be opened, neither global is set.
    -- Where the client then cannot connect, the engine is not disposed of. Otherwise the engine is disposed of
    -- at the shutdown if its call returns, an exception follows in any case, and the client is left as serving
    -- the requests left it, its connection not closed.
    pub lifespan-Ends : Ends (lifespan db_returns returns queue meanwhile closes start)
    unfolding lifespan
    lifespan-Ends = elim (Bool-cases (db_returns create_engine)) [
      | inr uncreated ↦ rw uncreated (unopened (rw uncreated refl))
      | inl created ↦ elim (Bool-cases (db_returns select_one)) [
        | inr unselected ↦ rw (created, unselected) (unopened (rw (created, unselected) refl))
        | inl selected ↦ lifespan_opened _ created selected refl
      ]
    ]
