-- ===== src/Consumer/Strategy/LeastBusy.antt =====
-- strategy/least_busy.py and metrics_based_strategy.py: the server whose 95th percentile of the time to
-- first token is least. `pick` stands for the random number that `random.choice` draws.
-- The proofs are in `Scores` and `Best`.
pub mod Scores
pub mod Best
use aristote_dispatcher.Common.{
  ℕ, ◌%◌, String, string_eq, Bool, true, false, not, Option, none, some, List, [], ◌∷◌, map, length,
  get_elem?, ◌==◌, option_eq, if◌then◌else◌,
}
use aristote_dispatcher.Common.Dict.{lookup, insert, values}
use aristote_dispatcher.Common.Exec.{Result, ok, raised}
use aristote_dispatcher.Common.Float.{Float, float_eq, ltb_float, minus_one}
use aristote_dispatcher.Consumer.Exceptions.{
  Exception, server_not_found, key_error, index_error, value_error,
}
use aristote_dispatcher.Consumer.Server.{VllmServer, server_eq}
use aristote_dispatcher.Consumer.Strategy.Histogram.{Histogram}
use aristote_dispatcher.Consumer.Strategy.Percentile.{get_percentile, business_score}
use aristote_dispatcher.Consumer.Strategy.Tracker.{
  MetricsTracker, new_tracker, update_urls, monitor, stop_monitor, map_ok,
}

pub record LeastBusy : Type 0 where
  pub servers : List VllmServer
  pub tracker : MetricsTracker

abbrev pub urls_of : List VllmServer → List String
urls_of = map (λ s. s.url)

-- `create` starts the monitoring.
unfoldable pub create : List VllmServer → ℕ → LeastBusy
create servers count = record {
  servers = servers;
  tracker = monitor (new_tracker (urls_of servers) count);
}

abbrev score_of : Option Histogram → Result Exception Float
score_of none = raised key_error
score_of (some h) = map_ok business_score (get_percentile h 95)

unfoldable pub get_server_score : MetricsTracker → String → Result Exception Float
get_server_score t url = score_of (lookup url t.diff_histograms)

-- `random.choice(candidates)`
unfoldable pub choice {ℓ} : {A : Type ℓ} → ℕ → List A → Option A
choice pick xs = get_elem? xs (pick % length xs)

-- `min(values)`: the first of the least ones.
abbrev pub min_from : Float → List Float → Float
min_from m [] = m
min_from m (x ∷ xs) = min_from (if ltb_float x m then x else m) xs

unfoldable pub min_value : List Float → Result Exception Float
min_value [] = raised value_error
min_value (x ∷ xs) = ok (min_from x xs)

-- `[k for k, v in scores.items() if v == value]`
unfoldable pub keys_with {ℓ} : {K : Type ℓ} → Float → List (K × Float) → List K
keys_with value [] = []
keys_with value ((k, v) ∷ m) = let rest = keys_with value m in if v == value then k ∷ rest else rest

abbrev pub chosen : {K : Type 0} → Option K → Float → Result Exception (K × Float)
chosen none m = raised index_error
chosen (some k) m = ok (k, m)

abbrev pub least_among :
    {K : Type 0} → ℕ → List (K × Float) → Result Exception Float → Result Exception (K × Float)
least_among pick scores (raised e) = raised e
least_among pick scores (ok m) = chosen (choice pick (keys_with m scores)) m

-- `least_busy`, for the urls of a strategy and for the servers of an organization.
unfoldable pub least_busy : {K : Type 0} → ℕ → List (K × Float) → Result Exception (K × Float)
least_busy pick scores = least_among pick scores (min_value (values scores))

abbrev pub with_score :
    {A : Type 0} → Result Exception Float → (Float → Result Exception A) → Result Exception A
with_score (raised e) f = raised e
with_score (ok v) f = f v

-- The loop over the tracker's urls: the scores, and the last url whose score is -1.
unfoldable pub score_urls :
    MetricsTracker
    → List String
    → List (String × Float)
    → Option String
    → Result Exception (List (String × Float) × Option String)
score_urls t [] scores least = ok (scores, least)
score_urls t (url ∷ urls) scores least = with_score (get_server_score t url) (λ (v : Float).
    score_urls t urls (insert url v scores) (if v == minus_one then some url else least))

abbrev pub is_truthy : Option String → Bool
is_truthy none = false
is_truthy (some s) = not (s == "")

abbrev pub with_some : {A B : Type 0} → A × B → Option A × Option B
with_some (a, b) = (some a, some b)

-- `if scores and not url_least_busy`
unfoldable pub select_url :
    ℕ → List (String × Float) → Option String → Result Exception (Option String × Option Float)
select_url pick [] url = ok (url, none)
select_url pick (e ∷ scores) url =
    if is_truthy url then ok (url, none) else map_ok with_some (least_busy pick (e ∷ scores))

-- The last loop: the first server with that url.
unfoldable pub find_server :
    List VllmServer → Option String → Option Float → Result Exception (VllmServer × Option Float)
find_server [] url time = raised server_not_found
find_server (s ∷ servers) url time =
    let rest = find_server servers url time in if some s.url == url then ok (s, time) else rest

abbrev pub selected_server :
    List VllmServer
    → Result Exception (Option String × Option Float)
    → Result Exception (VllmServer × Option Float)
selected_server servers (raised e) = raised e
selected_server servers (ok (url, time)) = find_server servers url time

abbrev pub scored_server :
    ℕ
    → List VllmServer
    → Result Exception (List (String × Float) × Option String)
    → Result Exception (VllmServer × Option Float)
scored_server pick servers (raised e) = raised e
scored_server pick servers (ok (scores, url)) = selected_server servers (select_url pick scores url)

unfoldable pub choose_server : ℕ → LeastBusy → Result Exception (VllmServer × Option Float)
choose_server pick s = scored_server pick s.servers (score_urls s.tracker s.tracker.urls [] none)

abbrev pub servers_beq : List VllmServer → List VllmServer → Bool
servers_beq [] [] = true
servers_beq (x ∷ xs) (y ∷ ys) = let rest = servers_beq xs ys in if x == y then rest else false
servers_beq [] (y ∷ ys) = false
servers_beq (x ∷ xs) [] = false

-- `MetricsBasedStrategy.update_servers`: nothing happens when the servers are the same.
unfoldable pub update_servers : List VllmServer → LeastBusy → LeastBusy
update_servers servers s = if servers_beq servers s.servers then s else record {
  servers = servers;
  tracker = monitor (update_urls (urls_of servers) (stop_monitor s.tracker));
}
