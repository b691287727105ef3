-- ===== src/Sender/Examples/Calls.antt =====
-- The theorems about the calls of the sender at concrete events and responses.
use aristote_dispatcher.Common.{
  ℕ, ◌≡◌, ◌⊎◌, inl, refl, ◌==◌, true, String, string_eq, nat_eq, none, some, List, [], ◌∷◌, arith,
  eq_iff, if◌then◌else◌,
}
use aristote_dispatcher.Common.Dict.{lookup, contains}
use aristote_dispatcher.Common.Exec.{ok, raised}
use aristote_dispatcher.Consumer.Broker.{reliable}
use aristote_dispatcher.Consumer.Exceptions.{key_error, value_error}
use aristote_dispatcher.Sender.RpcClient.{Session, cancelled, response, on_response, response_of}
use aristote_dispatcher.Sender.RpcClient.Calls.{on_response_lem}
use aristote_dispatcher.Sender.RpcClient.Runs.{
  Event, called, answered, reconnected, expired, resumed, Running, run,
}
use aristote_dispatcher.Sender.RpcClient.Runs.Tracked.{IsTracked, run-IsTracked, on_response_cases}
use aristote_dispatcher.Sender.Examples.{client, session, reply, session-IsLinked}

session-IsTracked : IsTracked [] session
session-IsTracked = (
  λ id f h. let (below, unsettled) = session-IsLinked.0 id f h in (below, inl unsettled),
  session-IsLinked.1,
)

abbrev events : List Event
events =
    called "id2" (some 2) 1 5 "m" none "any"
    ∷ expired "id"
    ∷ reconnected (λ call. true) "new"
    ∷ answered reply
    ∷ resumed "id"
    ∷ []

abbrev running : Running
running = record { session = session; resuming = [] }

run-IsTracked_example :
    IsTracked (run reliable events running).resuming (run reliable events running).session
run-IsTracked_example = run-IsTracked reliable events running session-IsTracked

abbrev cancelled_session : Session
cancelled_session = record session { store = (0, cancelled) ∷ [] }

cancelled-IsTracked : IsTracked ("id" ∷ []) cancelled_session
unfolding lookup contains
cancelled-IsTracked =
    (λ id f h. ground (arith, eq_iff "id" id), λ id other f h k. session-IsLinked.1 id other f h k)

on_response_cases_example :
    ((lookup {K = String} "id" client.futures ≡ none)
      × (on_response reply cancelled_session ≡ (raised key_error, cancelled_session)))
    ⊎ ((f : ℕ) × (after : Session) × (lookup {K = String} "id" client.futures ≡ some f)
        × (on_response reply cancelled_session ≡ (ok tt, after))
        × (response_of f after ≡ some (response reply))
        × (lookup "id" after.client.futures ≡ none))
    ⊎ ((f : ℕ) × (after : Session) × (lookup {K = String} "id" client.futures ≡ some f)
        × (contains {A = String} "id" ("id" ∷ []) ≡ true)
        × (on_response reply cancelled_session ≡ (raised value_error, after))
        × (response_of f after ≡ none)
        × (lookup "id" after.client.futures ≡ none))
on_response_cases_example =
    on_response_cases ("id" ∷ []) cancelled_session reply "id" cancelled-IsTracked refl

on_response_example :
    ((lookup {K = String} "id" client.futures ≡ none)
      × (on_response reply session ≡ (raised key_error, session)))
    ⊎ ((f : ℕ) × (after : Session) × (lookup {K = String} "id" client.futures ≡ some f)
        × (on_response reply session ≡ (ok tt, after))
        × (response_of f after ≡ some (response reply))
        × ((other : String)
            → lookup other after.client.futures
              ≡ (if "id" == other then none else lookup {K = String} other client.futures)))
on_response_example = on_response_lem session reply "id" session-IsLinked refl
