-- ===== src/Consumer/Strategy/RoundRobin/Turns.antt =====
-- The order in which round-robin gives the servers out.
use mathlib.Core.List.{Perm, append-nil, append_assoc, perm_append_comm}
use native.Mathlib.Nat.{zero-add, mod-eq_of_lt, mod_self}
use aristote_dispatcher.Common.{
  ℕ, zero, suc, ◌+◌, ◌%◌, ◌≤◌, ◌<◌, ◌≡◌, refl, sym, ap, ◌∙◌, subst, ◌≢◌, ◌↔◌, ◌⊎◌, inl, inr, none,
  some, List, [], ◌∷◌, ◌++◌, arith, length, get_elem?, take, drop, length-append, get_elem?_of_lt,
}
use aristote_dispatcher.Common.Exec.{Exec, ok, raised, pure, ◌>>=◌}
use aristote_dispatcher.Consumer.Exceptions.{Exception, server_not_found, index_error}
use aristote_dispatcher.Consumer.Server.{VllmServer}
use aristote_dispatcher.Consumer.Strategy.RoundRobin.{
  RoundRobin, new_round_robin, update_servers, choose_server,
}

-- The index names a server, if there is one.
abbrev pub IsValid : RoundRobin → Type 0
IsValid s = (s.servers ≡ []) ⊎ (s.round_robin_idx < length s.servers)

get_elem?_middle :
    (pre post : List VllmServer) (x : VllmServer)
    → get_elem? (pre ++ x ∷ post) (length pre) ≡ some x
get_elem?_middle [] post x = refl
get_elem?_middle (y ∷ pre) post x = get_elem?_middle pre post x

-- A number of calls in a row.
pub choices : ℕ → Exec Exception RoundRobin (List VllmServer)
choices zero = pure []
choices (suc n) = do chosen ← choose_server; rest ← choices n; pure (chosen.0 ∷ rest)

abbrev at_index : List VllmServer → ℕ → RoundRobin
at_index servers i = record { servers = servers; round_robin_idx = i }

-- The order of the next turns: from the server at the index to the end, then from the beginning.
abbrev pub round_from : RoundRobin → List VllmServer
round_from s = drop s.round_robin_idx s.servers ++ take s.round_robin_idx s.servers

turn :
    (servers : List VllmServer) (i : ℕ) (x : VllmServer)
    → get_elem? servers i ≡ some x
    → choose_server (at_index servers i)
      ≡ (ok (x, none), at_index servers ((i + 1) % length servers))
unfolding choose_server
turn [] i x e = cc
turn (z ∷ servers) i x e = rw e

choices-suc :
    (n : ℕ) (s t u : RoundRobin) (x : VllmServer) (xs : List VllmServer)
    → choose_server s ≡ (ok (x, none), t)
    → choices n t ≡ (ok xs, u)
    → choices (suc n) s ≡ (ok (x ∷ xs), u)
unfolding choices
choices-suc n s t u x xs h k = rw (h, k)

length_middle :
    (pre post : List VllmServer) (x : VllmServer)
    → length (pre ++ x ∷ post) ≡ length pre + 1 + length post
length_middle pre post x = omega (arith, length-append pre (x ∷ post))

-- As many calls as there are servers in a segment give out the segment; `n` further calls follow.
choices_segment :
    (pre mid post : List VllmServer) (x : VllmServer) (servers : List VllmServer) (i n : ℕ)
    {ys : List VllmServer} {u : RoundRobin}
    → servers ≡ pre ++ x ∷ (mid ++ post)
    → i ≡ length pre
    → choices n (at_index servers ((i + suc (length mid)) % length servers)) ≡ (ok ys, u)
    → choices (suc (length mid + n)) (at_index servers i) ≡ (ok (x ∷ (mid ++ ys)), u)
choices_segment pre [] post x servers i n {ys} {u} e l h =
    rw (zero-add n)
      (choices-suc n _ _ u x ys (turn servers i x (rw (e, l) (get_elem?_middle pre post x))) h)
choices_segment pre (y ∷ mid) post x servers i n {ys} {u} e l h = rw counted (
    choices-suc (suc (length mid + n)) _ (at_index servers ((i + 1) % length servers)) u x
      (y ∷ (mid ++ ys)) (turn servers i x (rw (e, l) (get_elem?_middle pre _ x)))
      (rw next (
        choices_segment (pre ++ x ∷ []) mid post y servers (i + 1) n
          (e ∙ sym (append_assoc pre (x ∷ []) _)) (omega (arith, length_middle pre [] x))
          (rw (← shift) h))))
  where
    counted : suc (length mid) + n ≡ suc (length mid + n)
    counted = omega arith

    next : (i + 1) % length servers ≡ i + 1
    next = mod-eq_of_lt (omega (arith, ap length e, length_middle pre (y ∷ (mid ++ post)) x))

    shift : i + suc (suc (length mid)) ≡ (i + 1) + suc (length mid)
    shift = omega arith

take-append-drop : (n : ℕ) (xs : List VllmServer) → take n xs ++ drop n xs ≡ xs
take-append-drop zero xs = refl
take-append-drop (suc n) [] = refl
take-append-drop (suc n) (x ∷ xs) = rw (take-append-drop n xs)

length-take : (n : ℕ) (xs : List VllmServer) → n ≤ length xs → length (take n xs) ≡ n
length-take zero xs h = refl
length-take (suc n) [] h = absurd (omega arith)
length-take (suc n) (x ∷ xs) h = omega (arith, length-take n xs)

choices-zero : (s : RoundRobin) → choices 0 s ≡ (ok [], s)
unfolding choices
choices-zero s = refl

-- From the first server on, the calls come to the index `length pre` after the servers before it.
choices_prefix :
    (pre post servers : List VllmServer)
    → servers ≡ pre ++ post
    → length pre < length servers
    → choices (length pre) (at_index servers 0) ≡ (ok pre, at_index servers (length pre))
choices_prefix [] post servers e h = choices-zero _
choices_prefix (y ∷ pre) post servers e h = cc (
  choices_segment [] pre post y servers 0 0 {ys = []} {u = at_index servers (suc (length pre))} e
      refl there,
  append-nil pre,
  counted,
)
  where
    counted : length pre + 0 ≡ length pre
    counted = omega arith

    back : (0 + suc (length pre)) % length servers ≡ suc (length pre)
    back = rw (zero-add (suc (length pre))) (mod-eq_of_lt h)

    there :
        choices 0 (at_index servers ((0 + suc (length pre)) % length servers))
        ≡ (ok [], at_index servers (suc (length pre)))
    there = cc (choices-zero (at_index servers (suc (length pre))), back)

-- From any index, one round ends where it began.
choices_round :
    (pre mid servers : List VllmServer) (x : VllmServer)
    → servers ≡ pre ++ x ∷ mid
    → choices (length servers) (at_index servers (length pre))
      ≡ (ok ((x ∷ mid) ++ pre), at_index servers (length pre))
choices_round pre mid servers x e = cc (
  choices_segment pre mid [] x servers (length pre) (length pre) {ys = pre}
      {u = at_index servers (length pre)} (rw (append-nil mid) e) refl second,
  counted,
)
  where
    total : length servers ≡ length pre + suc (length mid)
    total = omega (arith, ap length e, length_middle pre mid x)

    counted : suc (length mid + length pre) ≡ length servers
    counted = omega (arith, total)

    second :
        choices (length pre) (at_index servers ((length pre + suc (length mid)) % length servers))
        ≡ (ok pre, at_index servers (length pre))
    second = cc (choices_prefix pre (x ∷ mid) servers e (omega (arith, total)), wraps)
      where
        wraps : (length pre + suc (length mid)) % length servers ≡ 0
        wraps = rw (← total) (mod_self (length servers))

drop_of_lt :
    (n : ℕ) (xs : List VllmServer)
    → n < length xs
    → (x : VllmServer) × (mid : List VllmServer) × (drop n xs ≡ x ∷ mid)
drop_of_lt n [] h = absurd (omega arith)
drop_of_lt zero (x ∷ xs) h = (x, xs, refl)
drop_of_lt (suc n) (x ∷ xs) h = drop_of_lt n xs (omega arith)

-- From a valid index, as many calls as there are servers return the servers from the index on and then
-- those before it: each server as often as it is listed. They leave the object as it was.
pub choices-round_from :
    (s : RoundRobin)
    → s.round_robin_idx < length s.servers
    → (choices (length s.servers) s ≡ (ok (round_from s), s)) × Perm (round_from s) s.servers
choices-round_from s h =
    let (x, mid, e) = drop_of_lt s.round_robin_idx s.servers h in
    let split = take-append-drop s.round_robin_idx s.servers in
    let size = length-take s.round_robin_idx s.servers (omega arith) in
    (
      cc (
        choices_round (take s.round_robin_idx s.servers) mid s.servers x
            (sym split ∙ ap (◌++◌ (take s.round_robin_idx s.servers)) e),
        size,
        e,
      ),
      subst (Perm (round_from s)) split
          (perm_append_comm (drop s.round_robin_idx s.servers) (take s.round_robin_idx s.servers)),
    )

reset_valid : (servers : List VllmServer) → (servers ≡ []) ⊎ (0 < length servers)
reset_valid [] = inl refl
reset_valid (x ∷ servers) = inr (omega arith)

choose-IsValid :
    (xs : List VllmServer) (i : ℕ)
    → IsValid (at_index xs i)
    → IsValid (choose_server (at_index xs i)).1
      × ((choose_server (at_index xs i)).0 ≢ raised index_error)
      × (((choose_server (at_index xs i)).0 ≡ raised server_not_found) ↔ (xs ≡ []))
unfolding choose_server
choose-IsValid [] i v = (inl refl, (λ e. cc), ((λ e. refl), (λ e. refl)))
choose-IsValid (x ∷ xs) i (inl e) = cc
choose-IsValid (x ∷ xs) i (inr h) =
    let (y, e) = get_elem?_of_lt (x ∷ xs) i h in
    rw e (inr (omega arith), (λ q. cc), ((λ q. cc), (λ q. cc)))

-- From a valid index, it stays in range under every operation, so no call raises an IndexError; a call raises
-- ServerNotFound exactly when there is no server.
pub choose_server-IsValid :
    (s : RoundRobin) (servers : List VllmServer)
    → IsValid s
    → IsValid (choose_server s).1
      × IsValid (update_servers servers s)
      × IsValid (new_round_robin servers)
      × ((choose_server s).0 ≢ raised index_error)
      × (((choose_server s).0 ≡ raised server_not_found) ↔ (s.servers ≡ []))
unfolding update_servers new_round_robin
choose_server-IsValid s servers v =
    let (valid, no_index_error, not_found) = choose-IsValid s.servers s.round_robin_idx v in
    (valid, reset_valid servers, reset_valid servers, no_index_error, not_found)
