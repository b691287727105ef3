-- ===== src/Dispatch/Answered.antt =====
-- What becomes of a call, from the fate of its request in the consumer.
use mathlib.Core.List.{Mem, mem-append_left, mem-append_right, mem-cons_self}
use aristote_dispatcher.Common.{
  ℕ, ◌≡◌, refl, sym, ap, ◌∙◌, subst, ◌⊎◌, inl, inr, String, string_eq, Bool, true, false, Option,
  none, some, List, [], ◌∷◌, ◌++◌, ◌==◌, arith, length,
}
use aristote_dispatcher.Common.Dict.{lookup, insert, add, contains, contains-add}
use aristote_dispatcher.Common.Exec.{Result, ok}
use aristote_dispatcher.Consumer.Broker.{Broker, published, requeue_task, expire_task}
use aristote_dispatcher.Consumer.Exceptions.{Exception}
use aristote_dispatcher.Consumer.Message.{IncomingMessage, MessageData}
use aristote_dispatcher.Consumer.Server.{VllmServer, server_eq}
use aristote_dispatcher.Consumer.RpcServer.Answer.{answer, server_params, busy_params}
use aristote_dispatcher.Consumer.RpcServer.Callbacks.{serve_private}
use aristote_dispatcher.Consumer.RpcServer.Delivery.{
  on_message_callback-Fate, serve_private-Fate, server_specific_callback_lem,
}
use aristote_dispatcher.Consumer.RpcServer.Fate.{
  Fate, admitted, busy, deferred, failed, counters, answered,
}
use aristote_dispatcher.Consumer.RpcServer.State.{World, RpcServer}
use aristote_dispatcher.Dispatch.{delivered, arriving, callback, handled}
use aristote_dispatcher.Sender.Http.{JsonBody, Request, Reply, streamed, CallArguments}
use aristote_dispatcher.Sender.Proxy
use aristote_dispatcher.Sender.Proxy.{conclude, forward, reply_with}
use aristote_dispatcher.Sender.RpcClient.{Session, response, on_response, response_of}
use aristote_dispatcher.Sender.RpcClient.Calls.{IsLinked, on_response_lem}
use aristote_dispatcher.Sender.Users.{User}

module _ (r : Request) (user : User) (json : JsonBody) (args : CallArguments) (s : Session)
    (id : String) (f tag tag' : ℕ) where
  abbrev pub request : IncomingMessage
  request = arriving tag id s.client.callback_queue args

  abbrev pub reply_message : MessageData → IncomingMessage
  reply_message params = delivered tag' s.client.callback_queue (answer request params)

  -- The consumer published an answer to the sender's queue, and from it the waiting call makes that reply.
  pub record Returns (w : World) (params : MessageData) (reply : Reply) : Type 0 where
    pub sent : Mem (published (answer request params) (some s.client.callback_queue)) w.trace
    pub after : Session
    pub taken : on_response (reply_message params) s ≡ (ok tt, after)
    pub resolved : response_of f after ≡ some (response (reply_message params))
    pub concluded : conclude r user json args (response (reply_message params)) ≡ ok reply

  -- How a call stands after the callback on its request, in the world `w` before and `w'` after it.
  pub data Dispatched (w w' : World) : Type 0 where
    served :
        (server : VllmServer) (ids : List String) (params : MessageData)
        → Returns w' params
            (streamed (forward r user json args (reply_message params) params server.url))
        → w'.trace ≡ answered w.trace request params ++ expire_task server id ∷ []
        → lookup server (counters w) ≡ some ids
        → counters w' ≡ insert server (add id ids) (counters w)
        → contains id (add id ids) ≡ true
        → Dispatched w w'
    refused :
        (params : MessageData)
        → Returns w' params (Proxy.busy user)
        → w'.trace ≡ answered w.trace request params
        → counters w' ≡ counters w
        → Dispatched w w'
    unacknowledged :
        (params : MessageData)
        → Returns w' params
            (reply_with r user json args (reply_message params) params params.llm_url)
        → w'.trace
          ≡ w.trace ++ published (answer request params) (some s.client.callback_queue) ∷ []
        → counters w' ≡ counters w
        → Dispatched w w'
    unanswered :
        (w'.trace ≡ w.trace)
          ⊎ ((target : Option String) × (delay : Option ℕ) × (w'.trace
                ≡ w.trace ++ requeue_task request target delay ∷ []))
        → counters w' ≡ counters w
        → Dispatched w w'

  module _ (linked : IsLinked s) (waits : lookup id s.client.futures ≡ some f) where
    returns :
        (w : World) (params : MessageData)
        → Mem (published (answer request params) (some s.client.callback_queue)) w.trace
        → Returns w params
            (reply_with r user json args (reply_message params) params params.llm_url)
    unfolding conclude
    returns w params sent = elim (on_response_lem s (reply_message params) id linked refl) [
      | inl (nobody, _) ↦ absurd (no_none (sym waits ∙ nobody))
      | inr (f', after, found, taken, resolved, _) ↦
          let same : f' ≡ f = (let both : some f' ≡ some f = sym found ∙ waits in cc) in
          record {
            sent = sent;
            after = after;
            taken = taken;
            resolved =
                subst (λ x. response_of x after ≡ some (response (reply_message params))) same
                  resolved;
            concluded = refl;
          }
    ]
      where
        no_none : some f ≡ none → ⊥
        no_none h = cc

    fate-Dispatched :
        (general : Bool) (target : Option String) (w : World) {out : Result Exception Unit × World}
        → Fate general request target w out
        → Dispatched w out.1
    fate-Dispatched general target w {out}
          (admitted st server score priority ids counted allowed e t c) =
        let params = server_params w.rpc.settings request server (length ids) priority score in
        let now : counters out.1 ≡ insert server (add id ids) (counters w) =
          ap (λ (x : RpcServer). x.current_parallel_requests) c in
        served server ids params
          (returns out.1 params (
            subst (Mem (published (answer request params) (some s.client.callback_queue))) (sym t)
              (mem-append_left _ (mem-append_left _ (mem-append_right _ mem-cons_self)))))
          t counted now (ground (arith, contains-add id id ids, string_eq.decides id id))
    fate-Dispatched general target w {out} (busy st g e t c) =
        let params = busy_params w.rpc.settings request in
        refused params
          (returns out.1 params (
            subst (Mem (published (answer request params) (some s.client.callback_queue))) (sym t)
              (mem-append_left _ (mem-append_right _ mem-cons_self))))
          t (ap (λ (x : RpcServer). x.current_parallel_requests) c)
    fate-Dispatched general target w {out} (deferred st e t c) =
        unanswered (inr (target, some w.rpc.settings.metrics_refresh_rate, t))
          (ap (λ (x : RpcServer). x.current_parallel_requests) c)
    fate-Dispatched general target w {out} (failed st x e (inl t) c) =
        unanswered (inl t) (ap (λ (x : RpcServer). x.current_parallel_requests) c)
    fate-Dispatched general target w {out} (failed st x e (inr (params, t)) c) =
        unacknowledged params
          (returns out.1 params (
            subst (Mem (published (answer request params) (some s.client.callback_queue))) (sym t)
              (mem-append_right _ mem-cons_self)))
          t (ap (λ (x : RpcServer). x.current_parallel_requests) c)

    private-Dispatched :
        (broker : Broker) (pick : ℕ) (w : World)
        → Dispatched w (serve_private broker pick request w).1
    private-Dispatched broker pick w = elim (serve_private-Fate broker pick request w) [
      | inl (fields, target, _, _, fate) ↦ fate-Dispatched false target w fate
      | inr (e, nothing) ↦
          subst (Dispatched w) (sym (ap (λ (o : Result Exception Unit × World). o.1) nothing))
            (unanswered (inl refl) refl)
    ]

    callback-Dispatched :
        (general : Bool) (broker : Broker) (pick : ℕ) (w : World)
        → Dispatched w (callback general broker pick request w)
    callback-Dispatched true broker pick w =
        fate-Dispatched true none w (on_message_callback-Fate broker pick request w)
    callback-Dispatched false broker pick w =
        subst (Dispatched w)
          (sym (
            ap (λ (o : Result Exception Unit × World). o.1)
              (server_specific_callback_lem broker pick request w)))
          (private-Dispatched broker pick w)

-- A call of the sender that waits for its answer, whose request comes to the consumer of its queue. Either the
-- consumer answers with a server, acknowledges, adds the call to that server's counter and to no other, makes
-- its expiry task, and does nothing else; and once that answer is delivered the user's request is forwarded to
-- that very server. Or it answers that there is none and acknowledges, nothing else, and the user gets the
-- busy reply. Or all that it does is to publish an answer, with no acknowledgement and nothing counted, and the
-- user gets the reply to that answer. Or it publishes no answer, with at most one task that requeues the
-- request, and counts nothing.
pub dispatch_lem :
    (broker : Broker) (pick : ℕ) (w : World) (r : Request) (user : User) (json : JsonBody)
    (args : CallArguments) (s : Session) (id : String) (f tag tag' : ℕ)
    → IsLinked s
    → lookup id s.client.futures ≡ some f
    → Dispatched r user json args s id f tag tag' w
        (handled broker pick args.routing_mode (arriving tag id s.client.callback_queue args) w)
dispatch_lem broker pick w r user json args s id f tag tag' linked waits =
    callback-Dispatched r user json args s id f tag tag' linked waits (args.routing_mode == "any")
      broker pick w
