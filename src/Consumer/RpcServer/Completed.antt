-- ===== src/Consumer/RpcServer/Completed.antt =====
-- What each message of the completion queue changes.
use mathlib.Core.List.{Mem, mem-cons_self, mem-cons_of_mem}
use aristote_dispatcher.Common.{
  ◌≡◌, refl, sym, subst, inl, inr, String, string_eq, Bool, true, false, Option, none, some, List,
  [], ◌∷◌, ◌++◌, ◌==◌, option_eq, option_beq_iff, All, Option-cases, Bool-cases, if◌then◌else◌,
}
use aristote_dispatcher.Common.Dict.{lookup, insert, discard, contains, contains-discard}
use aristote_dispatcher.Common.Exec.{ok, raised, Result-cases}
use aristote_dispatcher.Consumer.Broker.{Broker, acked}
use aristote_dispatcher.Consumer.Exceptions.{Exception}
use aristote_dispatcher.Consumer.Message.{IncomingMessage}
use aristote_dispatcher.Consumer.Server.{VllmServer, server_eq}
use aristote_dispatcher.Consumer.RpcServer.Answer.{str}
use aristote_dispatcher.Consumer.RpcServer.Callbacks.{
  load, field, used_server, on_completion_callback,
}
use aristote_dispatcher.Consumer.RpcServer.Completion.{completion_known, with_ack, without}
use aristote_dispatcher.Consumer.RpcServer.Fate.{counters, with_state}
use aristote_dispatcher.Consumer.RpcServer.State.{World}

-- The fields of a message, and a server that they name.
abbrev pub Names : IncomingMessage → World → List (String × Option String) → VllmServer → Type 0
Names m w fields s =
    (load m.body ≡ ok fields)
    × Mem s w.rpc.settings.vllm_servers
    × (field "server" fields ≡ some s.url)

-- Nothing changed, or the message's id is gone from the counter of the server that it names.
pub data Completed (acks : Bool) (m : IncomingMessage) (w w' : World) : Type 0 where
  unreadable : (e : Exception) → load m.body ≡ raised e → w' ≡ w → Completed acks m w w'
  unknown :
      (fields : List (String × Option String))
      → load m.body ≡ ok fields
      → All
          (λ (s : VllmServer). (some s.url == field "server" fields) ≡ false)
          w.rpc.settings.vllm_servers
      → w' ≡ w
      → Completed acks m w w'
  uncounted :
      (fields : List (String × Option String)) (s : VllmServer)
      → Names m w fields s
      → lookup s (counters w) ≡ none
      → w' ≡ w
      → Completed acks m w w'
  taken_off :
      (fields : List (String × Option String)) (s : VllmServer) (ids left : List String)
      → Names m w fields s
      → lookup s (counters w) ≡ some ids
      → ((id : String)
          → contains id left
            ≡ (if str (field "message_id" fields) == id then false else contains id ids))
      → w'.rpc ≡ with_state w w.rpc.strategy (insert s left (counters w))
      → w'.trace ≡ (if acks then w.trace ++ acked m.delivery_tag ∷ [] else w.trace)
      → Completed acks m w w'

some-none : (s : VllmServer) → some s ≡ none → ⊥
some-none s h = cc

same_some : (s t : VllmServer) → some s ≡ some t → s ≡ t
same_some s t h = cc

no_server :
    (servers : List VllmServer) (url : Option String)
    → used_server servers url ≡ none
    → All (λ (s : VllmServer). (some s.url == url) ≡ false) servers
unfolding used_server
no_server [] url h = tt
no_server (s ∷ servers) url h = elim (Option-cases (used_server servers url)) [
  | inr (t, found) ↦ absurd (some-none t (rw found at h))
  | inl nowhere ↦ elim (Bool-cases (some s.url == url)) [
    | inl same ↦ absurd (some-none s (rw (nowhere, same) at h))
    | inr other ↦ (other, no_server servers url nowhere)
  ]
]

that_server :
    (servers : List VllmServer) (url : Option String) (s : VllmServer)
    → used_server servers url ≡ some s
    → Mem s servers × (url ≡ some s.url)
unfolding used_server
that_server [] url s h = cc
that_server (t ∷ servers) url s h = elim (Option-cases (used_server servers url)) [
  | inr (u, found) ↦
      let (there, named) = that_server servers url u found in
      let same = same_some u s (rw found at h) in
      subst (λ v. Mem v (t ∷ servers) × (url ≡ some v.url)) same (mem-cons_of_mem t there, named)
  | inl nowhere ↦ elim (Bool-cases (some t.url == url)) [
    | inr other ↦ absurd (some-none s (sym (rw (nowhere, other) at h)))
    | inl here ↦
        let same = same_some t s (rw (nowhere, here) at h) in
        subst (λ v. Mem v (t ∷ servers) × (url ≡ some v.url)) same
          (mem-cons_self, sym ((option_beq_iff (some t.url) url).0 here))
  ]
]

acked_once :
    (acks : Bool) (m : IncomingMessage) (w : World)
    → let w' = if acks then with_ack w m else w in
      (w'.rpc ≡ w.rpc)
      × (w'.trace ≡ (if acks then w.trace ++ acked m.delivery_tag ∷ [] else w.trace))
acked_once true m w = (refl, refl)
acked_once false m w = (refl, refl)

-- A message of the completion queue that is no JSON object, names no known server, or names one without a
-- counter, changes nothing and is not acknowledged. Any other takes the id of its field "message_id", and no
-- other id, off the counter of a server with the url of its field "server", and off no other counter; it is
-- acknowledged if the broker takes the acknowledgement, and nothing else is done.
pub completion-Completed :
    (broker : Broker) (m : IncomingMessage) (w : World)
    → Completed (broker.acks m.delivery_tag) m w (on_completion_callback broker m w).1
unfolding on_completion_callback
completion-Completed broker m w = elim (Result-cases (load m.body)) [
  | inr (e, not_loaded) ↦ rw not_loaded (unreadable e not_loaded refl)
  | inl (fields, loaded) ↦
      let servers = w.rpc.settings.vllm_servers in
      let url = field "server" fields in
      elim (Option-cases (used_server servers url)) [
        | inl u ↦ rw (loaded, u) (unknown fields loaded (no_server servers url u) refl)
        | inr (s, u) ↦
            let (there, named) = that_server servers url s u in
            elim (Option-cases (lookup s (counters w))) [
              | inl none_there ↦
                  rw (loaded, u, none_there)
                    (uncounted fields s (loaded, there, named) none_there refl)
              | inr (ids, counted) ↦
                  let id = str (field "message_id" fields) in
                  let (kept, sent) =
                    acked_once (broker.acks m.delivery_tag) m (without w s id ids) in
                  rw (completion_known broker m w fields loaded s ids u counted) (
                    taken_off fields s ids (discard id ids) (loaded, there, named) counted
                      (λ other. contains-discard id other ids) kept sent)
            ]
      ]
]
