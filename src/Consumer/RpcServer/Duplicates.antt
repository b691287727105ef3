-- ===== src/Consumer/RpcServer/Duplicates.antt =====
-- rpc_server.py: the choice among the servers of one organization.
use aristote_dispatcher.Common.{
  ℕ, String, string_eq, Option, none, some, List, [], ◌∷◌, ◌==◌, option_eq, if◌then◌else◌,
}
use aristote_dispatcher.Common.Dict.{insert, keys}
use aristote_dispatcher.Common.Exec.{Result, ok, raised}
use aristote_dispatcher.Common.Float.{Float, float_eq, minus_one}
use aristote_dispatcher.Consumer.Exceptions.{Exception, index_error}
use aristote_dispatcher.Consumer.Server.{VllmServer, server_eq}
use aristote_dispatcher.Consumer.Strategy
use aristote_dispatcher.Consumer.Strategy.{Strategy}
use aristote_dispatcher.Consumer.Strategy.LeastBusy.{choice, least_busy}

abbrev pub end_or_continue :
    VllmServer
    → Result Exception (Option Float)
    → (Option Float → Result Exception (Option VllmServer × List (VllmServer × Option Float)))
    → List (VllmServer × Option Float)
    → Result Exception (Option VllmServer × List (VllmServer × Option Float))
end_or_continue s (raised e) rest scores = raised e
end_or_continue s (ok score) rest scores =
    if score == some minus_one then ok (some s, scores) else rest score

-- The loop of `choose_among_duplicates`: a server whose score is -1 ends it.
unfoldable pub score_duplicates :
    Strategy
    → List VllmServer
    → List (VllmServer × Option Float)
    → Result Exception (Option VllmServer × List (VllmServer × Option Float))
score_duplicates strategy [] scores = ok (none, scores)
score_duplicates strategy (s ∷ servers) scores =
    end_or_continue s (Strategy.get_server_score strategy s.url)
      (λ (v : Option Float). score_duplicates strategy servers (insert s v scores)) scores

abbrev pub cons_score :
    VllmServer × Float → Option (List (VllmServer × Float)) → Option (List (VllmServer × Float))
cons_score e none = none
cons_score e (some l) = some (e ∷ l)

-- The scores, where none of them is None.
abbrev pub all_scores : List (VllmServer × Option Float) → Option (List (VllmServer × Float))
all_scores [] = some []
all_scores ((s, none) ∷ m) = none
all_scores ((s, some v) ∷ m) = cons_score (s, v) (all_scores m)

abbrev pub or_index_error : Option VllmServer → Result Exception (VllmServer × Option Float)
or_index_error none = raised index_error
or_index_error (some s) = ok (s, none)

abbrev pub any_of : ℕ → List VllmServer → Result Exception (VllmServer × Option Float)
any_of pick servers = or_index_error (choice pick servers)

abbrev pub with_value : VllmServer × Float → VllmServer × Option Float
with_value (s, v) = (s, some v)

abbrev pub least_of : ℕ → List (VllmServer × Float) → Result Exception (VllmServer × Option Float)
least_of pick scores = Strategy.Tracker.map_ok with_value (least_busy pick scores)

abbrev pub choose_by_scores :
    ℕ
    → List VllmServer
    → Option (List (VllmServer × Float))
    → Result Exception (VllmServer × Option Float)
choose_by_scores pick servers none = any_of pick servers
choose_by_scores pick servers (some l) = least_of pick l

abbrev pub choose_scored :
    ℕ
    → Result Exception (Option VllmServer × List (VllmServer × Option Float))
    → Result Exception (VllmServer × Option Float)
choose_scored pick (raised e) = raised e
choose_scored pick (ok (some s, scores)) = ok (s, some minus_one)
choose_scored pick (ok (none, scores)) = choose_by_scores pick (keys scores) (all_scores scores)

unfoldable pub choose_among_duplicates :
    ℕ → Strategy → List VllmServer → Result Exception (VllmServer × Option Float)
choose_among_duplicates pick strategy duplicates =
    choose_scored pick (score_duplicates strategy duplicates [])

-- The servers of an organization.
unfoldable pub matching_servers : List VllmServer → Option String → List VllmServer
matching_servers [] organization = []
matching_servers (s ∷ servers) organization =
    let rest = matching_servers servers organization in
    if some s.organization == organization then s ∷ rest else rest
