-- ===== src/Dispatch/Routing.antt =====
-- The queue to which the sender publishes a request, and the callback of the consumer that consumes from it.
use mathlib.Core.List.{Mem, mem-cons_self, mem-cons_of_mem}
use aristote_dispatcher.Common.{
  ℕ, ◌<◌, ◌≤◌, ◌≡◌, ◌≢◌, refl, sym, ap, subst, inl, inr, ltb, String, string_eq, nat_eq, Bool, true,
  false, Option, none, some, List, [], ◌∷◌, ◌++◌, ◌==◌, All, All-map, arith, eq_iff, Bool-cases,
}
use aristote_dispatcher.Common.Dict.{lookup, get_or, lookup-insert_self}
use aristote_dispatcher.Common.Exec.{Result, ok, raised}
use aristote_dispatcher.Consumer.Broker.{Broker, published}
use aristote_dispatcher.Consumer.Exceptions.{Exception, rejected}
use aristote_dispatcher.Consumer.Message.{Message}
use aristote_dispatcher.Consumer.Server.{VllmServer}
use aristote_dispatcher.Consumer.RpcServer.Callbacks.{load, field}
use aristote_dispatcher.Consumer.RpcServer.Connection.{
  Call, consume, on_message, server_specific, Limits, first_connect, private_calls, all_calls,
  private_queue,
}
use aristote_dispatcher.Consumer.RpcServer.Connection.Consumers.{first_connect_lem}
use aristote_dispatcher.Consumer.RpcServer.State.{RpcServer}
use aristote_dispatcher.Sender.RpcClient.{
  Session, start_call, requested, request_body, request_key, private_key,
}

-- The message asks for a server in that mode, in the words that the consumer reads.
pub record IsRequest (id queue : String) (priority : ℕ) (organization : Option String)
    (mode : String) (m : Message) : Type 0 where
  pub same_id : m.correlation_id ≡ some id
  pub same_queue : m.reply_to ≡ some queue
  pub same_priority : m.priority ≡ some priority
  pub readable :
      mode ≢ "any"
      → (fields : List (String × Option String)) × (load m.body ≡ ok fields)
        × (field "routing_mode" fields ≡ some mode)
        × (field "organization" fields ≡ organization)

-- The queue `key` is consumed from by the callback that a request in that mode is for.
pub record IsConsumed (calls : List Call) (servers : List VllmServer) (organization : Option String)
    (mode key : String) : Type 0 where
  pub general : mode ≡ "any" → Mem (consume key on_message) calls
  pub of_organization :
      mode ≢ "any"
      → All
          (λ (s : VllmServer).
            organization ≡ some s.organization → Mem (consume key server_specific) calls)
          servers

-- How a call starts: too many messages, a refused publication, or one message and a future to wait for.
pub data IsStarted (b : Broker) (calls : List Call) (servers : List VllmServer) (id : String)
    (depth priority threshold : ℕ) (organization : Option String) (mode : String) (s : Session)
    (out : Result Exception (Option ℕ) × Session) : Type 0 where
  overloaded :
      threshold < depth
      → out ≡ (ok none, s)
      → IsStarted b calls servers id depth priority threshold organization mode s out
  refused :
      depth ≤ threshold
      → (m : Message) (key : String) → b.publishes m (some key) ≡ false
      → out.0 ≡ raised rejected
      → out.1.trace ≡ s.trace
      → IsStarted b calls servers id depth priority threshold organization mode s out
  sent :
      depth ≤ threshold
      → (m : Message) (key : String)
      → IsRequest id s.client.callback_queue priority organization mode m
      → IsConsumed calls servers organization mode key
      → out.0 ≡ ok (some s.next)
      → out.1.trace ≡ s.trace ++ published m (some key) ∷ []
      → lookup id out.1.client.futures ≡ some s.next
      → IsStarted b calls servers id depth priority threshold organization mode s out

privates :
    (l : Limits) (model : String) (servers : List VllmServer)
    → All
        (λ s. Mem (consume (private_queue model s) server_specific) (private_calls l model servers))
        servers
privates l model [] = tt
privates l model (server ∷ servers) = (
  mem-cons_of_mem _ mem-cons_self,
  All-map servers (λ s there. mem-cons_of_mem _ (mem-cons_of_mem _ there))
      (privates l model servers),
)

requested-IsRequest :
    (id queue : String) (priority : ℕ) (organization : Option String) (mode : String)
    → IsRequest id queue priority organization mode
        (requested (request_body mode organization) (some id) queue priority)
unfolding get_or lookup
requested-IsRequest id queue priority organization mode = record {
  same_id = refl;
  same_queue = refl;
  same_priority = refl;
  readable = λ other.
      let special : (mode == "any") ≡ false = ground (arith, other, eq_iff mode "any") in
      (
        ("routing_mode", some mode) ∷ ("organization", organization) ∷ [],
        rw special refl,
        refl,
        refl,
      );
}

module _ (l : Limits) (rpc : RpcServer) (organization : Option String) (mode : String) where
  abbrev model : String
  model = rpc.settings.model

  key-IsConsumed :
      IsConsumed
        (all_calls l rpc.settings)
        rpc.settings.vllm_servers
        organization
        mode
        (request_key model organization mode)
  key-IsConsumed = record {
    general = λ any.
        let same : (mode == "any") ≡ true = ground (arith, any, eq_iff mode "any") in
        rw same (
          mem-cons_of_mem _
            (mem-cons_of_mem _ (mem-cons_of_mem _ (mem-cons_of_mem _ (mem-cons_self)))));
    of_organization = λ other.
        let special : (mode == "any") ≡ false = ground (arith, other, eq_iff mode "any") in
        rw special (
          All-map rpc.settings.vllm_servers
            (λ (server : VllmServer) there of_server.
              subst
                (λ o.
                  Mem (consume (private_key model o) server_specific) (all_calls l rpc.settings))
                (sym of_server)
                (mem-cons_of_mem _ (
                  mem-cons_of_mem _ (
                    mem-cons_of_mem _ (
                      mem-cons_of_mem _
                        (mem-cons_of_mem _ (mem-cons_of_mem _ (mem-cons_of_mem _ (there)))))))))
            (privates l model rpc.settings.vllm_servers));
  }

-- In a consumer whose first connection meets no failure: a call on its model that finds more messages than its
-- threshold publishes nothing and changes nothing; one whose publication the broker refuses raises; any other
-- publishes one message and waits for a new future under its id. That message has the id, the priority, the
-- sender's queue, and, in a mode other than "any", the mode and the organization in the words that the consumer
-- reads. Its queue is, in the mode "any", one that the callback of the model's queue consumes from, and in
-- another mode, for each server of the organization, one that the callback of the organization's queue
-- consumes from.
pub start_call-IsStarted :
    (returns : Call → Bool) (all : (c : Call) → returns c ≡ true) (l : Limits) (rpc : RpcServer)
    (b : Broker) (id : String) (depth priority threshold : ℕ) (organization : Option String)
    (mode : String) (s : Session)
    → IsStarted b
        (first_connect returns l (record { rpc = rpc; calls = [] })).1.calls
        rpc.settings.vllm_servers
        id
        depth
        priority
        threshold
        organization
        mode
        s
        (start_call b id (some depth) priority threshold rpc.settings.model organization mode s)
unfolding start_call
start_call-IsStarted returns all l rpc b id depth priority threshold organization mode s =
    let model = rpc.settings.model in
    let queue = s.client.callback_queue in
    let m = requested (request_body mode organization) (some id) queue priority in
    let key = request_key model organization mode in
    let consumed =
      subst (λ calls. IsConsumed calls rpc.settings.vllm_servers organization mode key)
        (sym (ap (λ o. o.1.calls) (first_connect_lem returns all l rpc)))
        (key-IsConsumed l rpc organization mode) in
    elim (Bool-cases (ltb threshold depth)) [
      | inl full ↦ rw full (overloaded (ground (arith, full)) refl)
      | inr room ↦
          let fits : depth ≤ threshold = ground (arith, room) in
          elim (Bool-cases (b.publishes m (some key))) [
            | inr no_publish ↦ rw (room, no_publish) (refused fits m key no_publish refl refl)
            | inl taken ↦
                rw (room, taken)
                  (sent fits m key (requested-IsRequest id queue priority organization mode)
                    consumed refl refl (lookup-insert_self id s.next s.client.futures))
          ]
    ]
