-- ===== src/Consumer/RpcServer/Connection/Consumers.antt =====
-- What a first connection leaves, and how many consumers it starts.
use aristote_dispatcher.Common.{
  append_assoc, append_nil, suc, ◌≡◌, refl, sym, ap, ◌∙◌, String, string_eq, Bool, true, List, [],
  ◌∷◌, ◌++◌, length,
}
use aristote_dispatcher.Common.Exec.{Result, ok}
use aristote_dispatcher.Consumer.Exceptions.{Exception}
use aristote_dispatcher.Consumer.Server.{VllmServer}
use aristote_dispatcher.Consumer.Settings.{Settings}
use aristote_dispatcher.Consumer.RpcServer.State.{RpcServer}
use aristote_dispatcher.Consumer.RpcServer.Connection.{
  Call, connect, open_channel, set_qos, declare_queue, consume, on_message, on_completion,
  server_specific, Limits, Session, consume_private, first_connect, connected, private_calls,
  all_calls, private_queue, completed_queue, main_arguments, expiring, slots,
}

abbrev done : RpcServer → List Call → Result Exception Unit × Session
done rpc calls = (ok tt, record { rpc = rpc; calls = calls })

module _ (returns : Call → Bool) (all : (c : Call) → returns c ≡ true) (l : Limits) where
  consume_private_lem :
      (model : String) (servers : List VllmServer) (s : Session)
      → consume_private returns l model servers s
        ≡ done s.rpc (s.calls ++ private_calls l model servers)
  unfolding consume_private
  consume_private_lem model [] s = ap (done s.rpc) (sym (append_nil s.calls))
  consume_private_lem model (server ∷ servers) s =
      let declared = declare_queue (private_queue model server) (expiring l) in
      let consumed = consume (private_queue model server) server_specific in
      let rest = private_calls l model servers in
      rw (all declared, all consumed)
        (consume_private_lem model servers
            (record s { calls = (s.calls ++ declared ∷ []) ++ consumed ∷ [] })
          ∙ ap (done s.rpc) (
              sym (append_assoc (s.calls ++ declared ∷ []) (consumed ∷ []) rest)
              ∙ sym (append_assoc s.calls (declared ∷ []) (consumed ∷ rest))))

  -- If no call fails, a first connection opens the connection and its channel, declares the queues and
  -- consumes from them, and leaves the rest of the object as it was.
  pub first_connect_lem :
      (rpc : RpcServer)
      → first_connect returns l (record { rpc = rpc; calls = [] })
        ≡ done (connected rpc) (all_calls l rpc.settings)
  unfolding first_connect
  first_connect_lem rpc =
      let model = rpc.settings.model in
      let completed = completed_queue model in
      rw
        (
          all connect,
          all open_channel,
          all (set_qos 1),
          all (declare_queue model (main_arguments l)),
          all (consume model on_message),
          all (declare_queue completed (expiring l)),
          all (consume completed on_completion),
        )
        (consume_private_lem model rpc.settings.vllm_servers
          (record { rpc = connected rpc; calls = _ }))

slots-private_calls :
    (l : Limits) (model : String) (servers : List VllmServer)
    → slots (private_calls l model servers) ≡ length servers
unfolding slots
slots-private_calls l model [] = refl
slots-private_calls l model (s ∷ servers) = ap suc (slots-private_calls l model servers)

pub slots-all_calls :
    (l : Limits) (settings : Settings)
    → slots (all_calls l settings) ≡ suc (length settings.vllm_servers)
unfolding slots
slots-all_calls l settings = ap suc (slots-private_calls l settings.model settings.vllm_servers)
