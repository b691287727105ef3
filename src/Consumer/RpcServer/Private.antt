-- ===== src/Consumer/RpcServer/Private.antt =====
-- The server that is chosen for a message of an organization's queue.
use aristote_dispatcher.Common.{
  ℕ, ◌%◌, length, ◌≡◌, refl, subst, String, string_eq, Option, none, some, List, [], ◌∷◌, ◌==◌,
  option_eq, option_beq_iff, get_elem?, All, inl, inr, Bool-cases,
}
use aristote_dispatcher.Common.Dict.{insert, keys, values, All-insert}
use aristote_dispatcher.Common.Exec.{Result, ok, raised}
use aristote_dispatcher.Common.Float.{Float, float_eq, minus_one}
use aristote_dispatcher.Consumer.Exceptions.{Exception}
use aristote_dispatcher.Consumer.Server.{VllmServer, server_eq}
use aristote_dispatcher.Consumer.Strategy
use aristote_dispatcher.Consumer.Strategy.{Strategy}
use aristote_dispatcher.Consumer.Strategy.LeastBusy.{
  choice, chosen, keys_with, least_among, least_busy, min_value,
}
use aristote_dispatcher.Consumer.Strategy.LeastBusy.Scores.{All-get_elem?}
use aristote_dispatcher.Consumer.RpcServer.Duplicates.{
  with_value, cons_score, end_or_continue, score_duplicates, all_scores, or_index_error,
  choose_by_scores, choose_scored, choose_among_duplicates, matching_servers,
}

module _ (P : VllmServer → Type 0) where
  -- What is chosen has the property.
  abbrev Chosen : {A : Type 0} → Result Exception (VllmServer × A) → Type 0
  Chosen (raised e) = Unit
  Chosen (ok (s, a)) = P s

  abbrev Keys : {A : Type 0} → List (VllmServer × A) → Type 0
  Keys m = All (λ e. P e.0) m

  keys-All : {A : Type 0} (m : List (VllmServer × A)) → Keys m → All P (keys m)
  keys-All [] a = tt
  keys-All ((k, v) ∷ m) a = (a.0, keys-All m a.1)

  keys_with-All : (v : Float) (m : List (VllmServer × Float)) → Keys m → All P (keys_with v m)
  unfolding keys_with
  keys_with-All v [] a = tt
  keys_with-All v ((k, w) ∷ m) a = elim (Bool-cases (w == v)) [
    | inl same ↦ rw same (a.0, keys_with-All v m a.1)
    | inr other ↦ rw other (keys_with-All v m a.1)
  ]

  chosen-Chosen :
      (servers : List VllmServer) (i : ℕ) (v : Float) (o : Option VllmServer)
      → All P servers
      → get_elem? servers i ≡ o
      → Chosen (chosen o v)
  chosen-Chosen servers i v none a h = tt
  chosen-Chosen servers i v (some s) a h = All-get_elem? P servers i s a h

  least_among-Chosen :
      (pick : ℕ) (m : List (VllmServer × Float)) (least : Result Exception Float)
      → Keys m
      → Chosen (least_among pick m least)
  unfolding choice
  least_among-Chosen pick m (raised e) a = tt
  least_among-Chosen pick m (ok v) a =
      chosen-Chosen (keys_with v m) (pick % length (keys_with v m)) v _ (keys_with-All v m a) refl

  map_ok-Chosen :
      (out : Result Exception (VllmServer × Float))
      → Chosen out
      → Chosen (Strategy.Tracker.map_ok with_value out)
  map_ok-Chosen (raised e) c = tt
  map_ok-Chosen (ok (s, v)) c = c

  any_of-Chosen :
      (servers : List VllmServer) (i : ℕ) (o : Option VllmServer)
      → All P servers
      → get_elem? servers i ≡ o
      → Chosen (or_index_error o)
  any_of-Chosen servers i none a h = tt
  any_of-Chosen servers i (some s) a h = All-get_elem? P servers i s a h

  choose_by_scores-Chosen :
      (pick : ℕ) (servers : List VllmServer) (o : Option (List (VllmServer × Float)))
      → All P servers
      → ((l : List (VllmServer × Float)) → o ≡ some l → Keys l)
      → Chosen (choose_by_scores pick servers o)
  unfolding choice least_busy
  choose_by_scores-Chosen pick servers none a h =
      any_of-Chosen servers (pick % length servers) _ a refl
  choose_by_scores-Chosen pick servers (some l) a h =
      map_ok-Chosen (least_busy pick l)
        (least_among-Chosen pick l (min_value (values l)) (h l refl))

  Known : Option VllmServer → Type 0
  Known none = Unit
  Known (some s) = P s

  cons_score-Keys :
      (s : VllmServer) (v : Float) (o : Option (List (VllmServer × Float)))
      (l : List (VllmServer × Float))
      → P s
      → ((k : List (VllmServer × Float)) → o ≡ some k → Keys k)
      → cons_score (s, v) o ≡ some l
      → Keys l
  cons_score-Keys s v none l p f h = cc
  cons_score-Keys s v (some k) l p f h =
      let same : (s, v) ∷ k ≡ l = cc in subst Keys same (p, f k refl)

  all_scores-Keys :
      (m : List (VllmServer × Option Float)) (l : List (VllmServer × Float))
      → Keys m
      → all_scores m ≡ some l
      → Keys l
  all_scores-Keys [] l a h = let same : [] ≡ l = cc in subst Keys same tt
  all_scores-Keys ((s, none) ∷ m) l a h = cc
  all_scores-Keys ((s, some v) ∷ m) l a h =
      cons_score-Keys s v (all_scores m) l a.0 (λ k e. all_scores-Keys m k a.1 e) h

  choose_scored-Chosen :
      (pick : ℕ) (o : Option VllmServer) (m : List (VllmServer × Option Float))
      → Known o
      → Keys m
      → Chosen (choose_scored pick (ok (o, m)))
  unfolding Known
  choose_scored-Chosen pick (some s) m k a = k
  choose_scored-Chosen pick none m k a =
      choose_by_scores-Chosen pick (keys m) (all_scores m) (keys-All m a)
        (λ l e. all_scores-Keys m l a e)

  ended-Chosen :
      (pick : ℕ) (s : VllmServer) (score : Result Exception (Option Float))
      (rest : Option Float
        → Result Exception (Option VllmServer × List (VllmServer × Option Float)))
      (m : List (VllmServer × Option Float))
      → P s
      → ((v : Option Float) → Chosen (choose_scored pick (rest v)))
      → Chosen (choose_scored pick (end_or_continue s score rest m))
  ended-Chosen pick s (raised e) rest m p f = tt
  ended-Chosen pick s (ok v) rest m p f = elim (Bool-cases (v == some minus_one)) [
    | inl never ↦ rw never p
    | inr measured ↦ rw measured (f v)
  ]

  score_duplicates-Chosen :
      (pick : ℕ) (strategy : Strategy) (servers : List VllmServer)
      (m : List (VllmServer × Option Float))
      → All P servers
      → Keys m
      → Chosen (choose_scored pick (score_duplicates strategy servers m))
  unfolding score_duplicates Known
  score_duplicates-Chosen pick strategy [] m a k = choose_scored-Chosen pick none m tt k
  score_duplicates-Chosen pick strategy (s ∷ servers) m a k =
      ended-Chosen pick s (Strategy.get_server_score strategy s.url)
        (λ v. score_duplicates strategy servers (insert s v m)) m a.0
        (λ v.
          score_duplicates-Chosen pick strategy servers (insert s v m) a.1
            (All-insert (λ e. P e.0) s v m a.0 k))

abbrev IsOf : Option String → VllmServer → Type 0
IsOf organization s = some s.organization ≡ organization

matching_servers-IsOf :
    (servers : List VllmServer) (organization : Option String)
    → All (IsOf organization) (matching_servers servers organization)
unfolding matching_servers
matching_servers-IsOf [] organization = tt
matching_servers-IsOf (s ∷ servers) organization =
    elim (Bool-cases (some s.organization == organization)) [
      | inl own ↦ rw own (
        (option_beq_iff (some s.organization) organization).0 own,
        matching_servers-IsOf servers organization,
      )
      | inr foreign ↦ rw foreign (matching_servers-IsOf servers organization)
    ]

-- Whatever the strategy and the random number: the server that is chosen for a message of an organization's
-- queue is one of that organization.
pub choose_among_duplicates-IsOf :
    (pick : ℕ) (strategy : Strategy) (servers : List VllmServer) (organization : Option String)
    (s : VllmServer) (score : Option Float)
    → choose_among_duplicates pick strategy (matching_servers servers organization) ≡ ok (s, score)
    → some s.organization ≡ organization
unfolding choose_among_duplicates
choose_among_duplicates-IsOf pick strategy servers organization s score h =
    subst (Chosen (IsOf organization)) h (
      score_duplicates-Chosen (IsOf organization) pick strategy
        (matching_servers servers organization) [] (matching_servers-IsOf servers organization) tt)
