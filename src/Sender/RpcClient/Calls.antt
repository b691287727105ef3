-- ===== src/Sender/RpcClient/Calls.antt =====
-- A call and the response that ends it.
use aristote_dispatcher.Common.{
  ℕ, suc, ◌<◌, ◌≡◌, refl, if◌then◌else◌, ◌≤◌, lt→ltb, le→not_ltb, ◌==◌, ◌⊎◌, inl, inr, true, Option,
  some, none, List, [], ◌∷◌, ◌++◌, Option-cases, String, string_eq, nat_eq,
}
use aristote_dispatcher.Common.Dict.{lookup, insert, remove, lookup-remove, lookup-insert_self}
use aristote_dispatcher.Common.Exec.{ok, raised}
use aristote_dispatcher.Consumer.Broker.{Broker, Effect, published}
use aristote_dispatcher.Consumer.Exceptions.{key_error}
use aristote_dispatcher.Consumer.Message.{IncomingMessage}
use aristote_dispatcher.Sender.RpcClient.{
  Session, pending, done, response, start_call, on_response, response_of, put_future, put_futures,
  requested, request_body, request_key,
}

-- A future of the dictionary is in the store, and nobody has settled it.
abbrev pub IsPending : Session → Type 0
IsPending s =
    (id : String) (f : ℕ)
    → lookup id s.client.futures ≡ some f
    → (f < s.next) × (lookup f s.store ≡ some pending)

-- No two calls wait for the same future.
abbrev pub IsSeparate : Session → Type 0
IsSeparate s =
    (id other : String) (f : ℕ)
    → lookup id s.client.futures ≡ some f
    → lookup other s.client.futures ≡ some f
    → id ≡ other

abbrev pub IsLinked : Session → Type 0
IsLinked s = IsPending s × IsSeparate s

-- A response whose correlation id nobody waits for raises a KeyError and changes nothing. Where a call
-- waits, the response becomes what that call returns, the call leaves the dictionary and no other call
-- loses its place.
pub on_response_lem :
    (s : Session) (m : IncomingMessage) (id : String)
    → IsLinked s
    → m.correlation_id ≡ some id
    → ((lookup id s.client.futures ≡ none) × (on_response m s ≡ (raised key_error, s)))
      ⊎ ((f : ℕ) × (after : Session) × (lookup id s.client.futures ≡ some f)
          × (on_response m s ≡ (ok tt, after))
          × (response_of f after ≡ some (response m))
          × ((other : String)
              → lookup other after.client.futures
                ≡ (if id == other then none else lookup other s.client.futures)))
unfolding on_response response_of
on_response_lem s m id linked h = elim (Option-cases (lookup id s.client.futures)) [
  | inl none_waits ↦ inl (none_waits, rw (h, none_waits))
  | inr (f, waits) ↦
      let unsettled = (linked.0 id f waits).1 in
      inr (
        f,
        put_future f (done m) (put_futures (remove id s.client.futures) s),
        waits,
        rw (h, waits, unsettled),
        rw (lookup-insert_self f (done m) s.store),
        λ other. lookup-remove id other s.client.futures,
      )
]

abbrev pub fresh_call : String → List Effect → Session → Session
fresh_call id trace s = record s {
  client = record s.client { futures = insert id s.next s.client.futures };
  store = insert s.next pending s.store;
  next = suc s.next;
  trace = trace;
}

-- A call that finds more messages than its threshold publishes nothing and waits for nothing. Otherwise,
-- with a broker that takes it, one message is published, and the call waits for a new future under its id.
start_call_lem :
    (b : Broker) (id : String) (depth priority threshold : ℕ) (model : String)
    (organization : Option String) (mode : String) (s : Session)
    → (threshold < depth
        → start_call b id (some depth) priority threshold model organization mode s ≡ (ok none, s))
      × (depth ≤ threshold
          → b.publishes
              (requested
                (request_body mode organization)
                (some id)
                s.client.callback_queue
                priority)
              (some (request_key model organization mode))
            ≡ true
          → start_call b id (some depth) priority threshold model organization mode s ≡ (
            ok (some s.next),
            fresh_call id
                (s.trace
                  ++ published
                      (requested
                        (request_body mode organization)
                        (some id)
                        s.client.callback_queue
                        priority)
                      (some (request_key model organization mode))
                    ∷ [])
                s,
          ))
unfolding start_call
start_call_lem b id depth priority threshold model organization mode s = (
  λ h. rw (lt→ltb threshold depth h) refl,
  λ h taken. rw (le→not_ltb depth threshold h, taken) refl,
)
