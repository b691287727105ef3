-- ===== src/Sender/RpcClient/Runs/Tracked.antt =====
-- What holds of the futures after any run, and what a response then finds.
use aristote_dispatcher.Common.{
  ℕ, ◌<◌, ◌≡◌, ◌≢◌, refl, sym, ap, ◌∙◌, ltb, ◌==◌, ◌⊎◌, inl, inr, Option, true, some, none, List,
  [], ◌∷◌, ◌++◌, arith, Bool-cases, Option-cases, String, string_eq, nat_eq, eq_iff, nat_beq_iff,
}
use aristote_dispatcher.Common.Dict.{
  lookup, remove, lookup-insert, lookup-remove, lookup-insert_cases, lookup-insert_self, contains,
  discard, contains-discard,
}
use aristote_dispatcher.Common.Exec.{ok, raised}
use aristote_dispatcher.Consumer.Broker.{Broker, Effect, published}
use aristote_dispatcher.Consumer.Exceptions.{key_error, value_error}
use aristote_dispatcher.Consumer.Message.{IncomingMessage}
use aristote_dispatcher.Sender.RpcClient.{
  RpcClient, Session, Future, pending, cancelled, done, response, response_of, start_call,
  on_response, cancel_future, time_out, put_future, put_futures, resolve, requested, request_body,
  request_key,
}
use aristote_dispatcher.Sender.RpcClient.Connection.{reconnect_callback, reconnect_callback_futures}
use aristote_dispatcher.Sender.RpcClient.Calls.{IsSeparate, fresh_call}
use aristote_dispatcher.Sender.RpcClient.Runs.{
  Event, called, answered, expired, resumed, reconnected, Running, cancel_found, step, run,
}

-- The future `f` of the call `id` is pending, or cancelled because that call is about to resume.
abbrev pub IsOpen : List String → String → ℕ → Session → Type 0
IsOpen resuming id f s =
    (lookup f s.store ≡ some pending)
    ⊎ ((lookup f s.store ≡ some cancelled) × (contains id resuming ≡ true))

-- A future of the dictionary is in the store, nobody has set its result, and it belongs to one call.
abbrev pub IsTracked : List String → Session → Type 0
IsTracked resuming s =
    ((id : String) (f : ℕ)
      → lookup id s.client.futures ≡ some f
      → (f < s.next) × IsOpen resuming id f s)
    × IsSeparate s

carry :
    (r r' : List String) (id : String) (f : ℕ) (s s' : Session)
    → lookup f s'.store ≡ lookup f s.store
    → (contains id r ≡ true → contains id r' ≡ true)
    → IsOpen r id f s
    → IsOpen r' id f s'
carry r r' id f s s' same more (inl alive) = inl (same ∙ alive)
carry r r' id f s s' same more (inr (closed, waits)) = inr (same ∙ closed, more waits)

module _ (r : List String) where
  fresh_call-IsTracked :
      (id : String) (trace : List Effect) (s : Session)
      → IsTracked r s
      → IsTracked r (fresh_call id trace s)
  fresh_call-IsTracked id trace s p = (
    λ other f h. elim (lookup-insert_cases id other s.next f s.client.futures h) [
      | inl (same, new) ↦ (
        omega (arith, new),
        inl (ground (arith, new, lookup-insert s.next f pending s.store, nat_beq_iff s.next f)),
      )
      | inr old ↦
          let (below, alive) = p.0 other f old in
          (
            omega (arith, below),
            carry r r other f s (fresh_call id trace s)
                (ground
                  (arith, below, lookup-insert s.next f pending s.store, nat_beq_iff s.next f))
                (λ q. q) alive,
          )
    ],
    λ a b f h k. elim (lookup-insert_cases id a s.next f s.client.futures h) [
      | inl (id_a, new) ↦ elim (lookup-insert_cases id b s.next f s.client.futures k) [
        | inl (id_b, _) ↦ sym id_a ∙ id_b
        | inr old ↦ absurd (omega (arith, new, (p.0 b f old).0))
      ]
      | inr old_a ↦ elim (lookup-insert_cases id b s.next f s.client.futures k) [
        | inl (_, new) ↦ absurd (omega (arith, new, (p.0 a f old_a).0))
        | inr old_b ↦ p.1 a b f old_a old_b
      ]
    ],
  )

still :
    (id other : String) (g : ℕ) (futures : List (String × ℕ))
    → lookup other (remove id futures) ≡ some g
    → (id ≢ other) × (lookup other futures ≡ some g)
still id other g futures h = elim (Bool-cases (id == other)) [
  | inl same ↦ absurd (ground (arith, same, h, lookup-remove id other futures))
  | inr apart ↦ (
    λ q. ground (arith, q, apart, eq_iff id other),
    ground (arith, apart, h, lookup-remove id other futures),
  )
]

-- What a settled call leaves: its future settled, its id gone.
abbrev settled : String → ℕ → Future → Session → Session
settled id f state s = put_futures (remove id s.client.futures) (put_future f state s)

settled-IsTracked :
    (r : List String) (id : String) (f : ℕ) (state : Future) (s : Session)
    → lookup id s.client.futures ≡ some f
    → IsTracked r s
    → IsTracked r (settled id f state s)
settled-IsTracked r id f state s waits p = (
  λ other g h.
      let (apart, old) = still id other g s.client.futures h in
      let (below, alive) = p.0 other g old in
      let differ : f ≢ g = λ q. apart (p.1 id other g (waits ∙ ap some q) old) in
      (
        below,
        carry r r other g s (settled id f state s)
            (ground (arith, differ, lookup-insert f g state s.store, nat_beq_iff f g)) (λ q. q)
            alive,
      ),
  λ a b g h k. p.1 a b g (still id a g s.client.futures h).1 (still id b g s.client.futures k).1,
)

-- A call that leaves the dictionary, and the list of those that are about to resume, if it is in it.
removed-IsTracked :
    (r r' : List String) (id : String) (s : Session)
    → ((other : String) → id ≢ other → contains other r ≡ true → contains other r' ≡ true)
    → IsTracked r s
    → IsTracked r' (put_futures (remove id s.client.futures) s)
removed-IsTracked r r' id s more p = (
  λ other g h.
      let (apart, old) = still id other g s.client.futures h in
      let (below, alive) = p.0 other g old in
      (below, carry r r' other g s s refl (more other apart) alive),
  λ a b g h k. p.1 a b g (still id a g s.client.futures h).1 (still id b g s.client.futures k).1,
)

start_call-IsTracked :
    (r : List String) (b : Broker) (id : String) (depth : Option ℕ) (priority threshold : ℕ)
    (model : String) (organization : Option String) (mode : String) (s : Session)
    → IsTracked r s
    → IsTracked r (start_call b id depth priority threshold model organization mode s).1
unfolding start_call
start_call-IsTracked r b id none priority threshold model organization mode s p = p
start_call-IsTracked r b id (some depth) priority threshold model organization mode s p =
    let message =
      requested (request_body mode organization) (some id) s.client.callback_queue priority in
    let key = request_key model organization mode in
    elim (Bool-cases (ltb threshold depth)) [
      | inl overloaded ↦ rw overloaded p
      | inr room ↦ elim (Bool-cases (b.publishes message (some key))) [
        | inl taken ↦
            rw (room, taken)
              (fresh_call-IsTracked r id (s.trace ++ published message (some key) ∷ []) s p)
        | inr refused ↦ rw (room, refused) (fresh_call-IsTracked r id s.trace s p)
      ]
    ]

resolve-IsTracked :
    (r : List String) (m : IncomingMessage) (c : Option String) (s : Session)
    → IsTracked r s
    → IsTracked r (resolve c m s).1
resolve-IsTracked r m none s p = p
resolve-IsTracked r m (some id) s p = elim (Option-cases (lookup id s.client.futures)) [
  | inl none_waits ↦ rw none_waits p
  | inr (f, waits) ↦ elim (p.0 id f waits).1 [
    | inl alive ↦ rw (waits, alive) (settled-IsTracked r id f (done m) s waits p)
    | inr (closed, _) ↦ rw (waits, closed) (removed-IsTracked r r id s (λ other apart q. q) p)
  ]
]

expecting-IsTracked :
    (r : List String) (id : String) (s : Session) → IsTracked r s → IsTracked (id ∷ r) s
unfolding contains
expecting-IsTracked r id s p = (
  λ other g h.
      let (below, alive) = p.0 other g h in
      (below, carry r (id ∷ r) other g s s refl (λ q. ground (arith, q)) alive),
  p.1,
)

cancelled-IsTracked :
    (r : List String) (id : String) (f : ℕ) (s : Session)
    → lookup id s.client.futures ≡ some f
    → IsTracked r s
    → IsTracked (id ∷ r) (put_future f cancelled s)
unfolding contains
cancelled-IsTracked r id f s waits p = (
  λ other g h.
      let (below, alive) = p.0 other g h in
      elim (Bool-cases (f == g)) [
        | inl same ↦
            let other_id : id ≡ other =
              p.1 id other f waits (h ∙ ap some (sym ((nat_beq_iff f g).0 same))) in
            (
              below,
              inr (
                ground (arith, same, lookup-insert f g cancelled s.store),
                ground (arith, other_id, eq_iff id other),
              ),
            )
        | inr differ ↦ (
          below,
          carry r (id ∷ r) other g s (put_future f cancelled s)
              (ground (arith, differ, lookup-insert f g cancelled s.store)) (λ q. ground (arith, q))
              alive,
        )
      ],
  p.1,
)

expired-IsTracked :
    (r : List String) (id : String) (found : Option ℕ) (s : Session)
    → lookup id s.client.futures ≡ found
    → IsTracked r s
    → IsTracked (id ∷ r) (cancel_found found s)
unfolding cancel_future
expired-IsTracked r id none s waits p = expecting-IsTracked r id s p
expired-IsTracked r id (some f) s waits p = elim (p.0 id f waits).1 [
  | inl alive ↦ rw alive (cancelled-IsTracked r id f s waits p)
  | inr (closed, _) ↦ rw closed (expecting-IsTracked r id s p)
]

same_futures-IsTracked :
    (r : List String) (s : Session) (client : RpcClient)
    → client.futures ≡ s.client.futures
    → IsTracked r s
    → IsTracked r (record s { client = client })
same_futures-IsTracked r s client same p = (
  λ id f h. p.0 id f (ap (lookup id) (sym same) ∙ h),
  λ id other f h k.
      p.1 id other f (ap (lookup id) (sym same) ∙ h) (ap (lookup other) (sym same) ∙ k),
)

step-IsTracked :
    (b : Broker) (e : Event) (c : Running)
    → IsTracked c.resuming c.session
    → IsTracked (step b e c).resuming (step b e c).session
unfolding time_out on_response
step-IsTracked b (called id depth priority threshold model organization mode) c p =
    start_call-IsTracked c.resuming b id depth priority threshold model organization mode c.session
      p
step-IsTracked b (answered m) c p = resolve-IsTracked c.resuming m m.correlation_id c.session p
step-IsTracked b (expired id) c p =
    expired-IsTracked c.resuming id (lookup id c.session.client.futures) c.session refl p
step-IsTracked b (resumed id) c p =
    removed-IsTracked c.resuming (discard id c.resuming) id c.session
      (λ other apart q.
        ground (arith, apart, q, contains-discard id other c.resuming, eq_iff id other))
      p
step-IsTracked b (reconnected returns queue) c p =
    same_futures-IsTracked c.resuming c.session
      (reconnect_callback returns queue c.session.client).1
      (reconnect_callback_futures returns queue c.session.client) p

-- Over any sequence of calls, responses, timeouts, of calls that resume after one, and reconnections, whatever
-- the broker does and whatever ids the calls draw: if every future of the dictionary belongs to one call and is
-- pending, or is cancelled and belongs to a call whose timeout passed and that did not resume yet, so it is
-- afterwards.
pub run-IsTracked :
    (b : Broker) (es : List Event) (c : Running)
    → IsTracked c.resuming c.session
    → IsTracked (run b es c).resuming (run b es c).session
unfolding run
run-IsTracked b [] c p = p
run-IsTracked b (e ∷ es) c p = run-IsTracked b es (step b e c) (step-IsTracked b e c p)

-- Where the futures are tracked as above, a response raises a KeyError and changes nothing if no call waits
-- under its id; or it becomes what its call returns, and the call leaves the dictionary; or, where the timeout
-- of its call passed and the call did not resume yet, the call leaves the dictionary, `set_result` raises,
-- and the response is lost.
pub on_response_cases :
    (r : List String) (s : Session) (m : IncomingMessage) (id : String)
    → IsTracked r s
    → m.correlation_id ≡ some id
    → ((lookup id s.client.futures ≡ none) × (on_response m s ≡ (raised key_error, s)))
      ⊎ ((f : ℕ) × (after : Session) × (lookup id s.client.futures ≡ some f)
          × (on_response m s ≡ (ok tt, after))
          × (response_of f after ≡ some (response m))
          × (lookup id after.client.futures ≡ none))
      ⊎ ((f : ℕ) × (after : Session) × (lookup id s.client.futures ≡ some f)
          × (contains id r ≡ true)
          × (on_response m s ≡ (raised value_error, after))
          × (response_of f after ≡ none)
          × (lookup id after.client.futures ≡ none))
unfolding on_response response_of
on_response_cases r s m id p h = elim (Option-cases (lookup id s.client.futures)) [
  | inl none_waits ↦ inl (none_waits, rw (h, none_waits) refl)
  | inr (f, waits) ↦
      let gone : lookup id (remove id s.client.futures) ≡ none =
        ground (arith, lookup-remove id id s.client.futures, eq_iff id id) in
      elim (p.0 id f waits).1 [
        | inl alive ↦ inr (
            inl (
              f,
              settled id f (done m) s,
              waits,
              rw (h, waits, alive) refl,
              rw (lookup-insert_self f (done m) s.store) refl,
              gone,
            ))
        | inr (closed, expected) ↦ inr (
            inr (
              f,
              put_futures (remove id s.client.futures) s,
              waits,
              expected,
              rw (h, waits, closed) refl,
              rw closed refl,
              gone,
            ))
      ]
]
