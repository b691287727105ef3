-- ===== src/Consumer/Strategy/Tracker/Rounds.antt =====
-- The windows over the rounds of all servers.
use aristote_dispatcher.Common.{
  append_nil, ℕ, subst, ◌<◌, ◌≡◌, refl, sym, ap, ◌∙◌, String, string_eq, true, false, Option, some,
  List, [], ◌∷◌, ◌==◌, inl, inr, arith, length-replicate, replicate, Bool-cases, if◌then◌else◌,
}
use aristote_dispatcher.Common.Dict.{lookup, contains, lookup-insert}
use aristote_dispatcher.Common.Exec.{Result, ok, raised}
use aristote_dispatcher.Consumer.Exceptions.{Exception}
use aristote_dispatcher.Consumer.Strategy.Histogram.{Histogram}
use aristote_dispatcher.Consumer.Strategy.Tracker.{
  MetricsTracker, new_tracker, for_each, Window, window, set_window, map_ok, refresh,
  refreshed_from, Fetch, fetched, unreachable, failed, monitor_server, after_round, rounds,
}
use aristote_dispatcher.Consumer.Strategy.Tracker.Sliding.{
  Sliding, queue, slide, contents, IsWindow, refresh-slide,
}

-- The reports of one server among the rounds of all.
abbrev pub reports : String → List (String × Fetch) → List (Option Histogram)
reports url [] = []
reports url ((u, fetched content) ∷ es) =
    let rest = reports url es in if u == url then content ∷ rest else rest
reports url ((u, unreachable) ∷ es) = reports url es
reports url ((u, failed) ∷ es) = reports url es

abbrev pub slides : List (Option Histogram) → Sliding → Sliding
slides [] q = q
slides (content ∷ rest) q = slides rest (slide q content)

-- The window of a server, in order, with that queue in it.
pub record Holds (t : MetricsTracker) (url : String) (q : Sliding) : Type 0 where
  pub w : Window
  pub found : window t url ≡ ok w
  ordered : IsWindow t.refresh_count_per_window w
  pub queue : contents w ≡ q

window-set_window :
    (t : MetricsTracker) (u url : String) (w : Window)
    → window (set_window t u w) url ≡ (if u == url then ok w else window t url)
unfolding window set_window
window-set_window t u url w = elim (Bool-cases (u == url)) [
  | inl same ↦
      rw
        (
          lookup-insert u url w.index t.window_indexes,
          lookup-insert u url w.last t.last_histograms,
          lookup-insert u url w.diff t.diff_histograms,
          same,
        )
        refl
  | inr other ↦
      rw
        (
          lookup-insert u url w.index t.window_indexes,
          lookup-insert u url w.last t.last_histograms,
          lookup-insert u url w.diff t.diff_histograms,
          other,
        )
        refl
]

lookup-for_each {ℓ} :
    {V : Type ℓ} (url : String) (us : List String) (v : V)
    → contains url us ≡ true
    → lookup url (for_each us v) ≡ some v
unfolding lookup contains
lookup-for_each url [] v h = cc
lookup-for_each url (u ∷ us) v h =
    ground (arith, lookup-insert u url v (for_each us v), lookup-for_each url us v)

stored :
    (t : MetricsTracker) (url : String) (w : Window)
    → IsWindow t.refresh_count_per_window w
    → Holds (set_window t url w) url (contents w)
unfolding set_window
stored t url w v = record {
  w = w;
  found = rw (window-set_window t url url w, (string_eq.decides url url).1 refl) refl;
  ordered = v;
  queue = refl;
}

module _ (t : MetricsTracker) (url : String) (q : Sliding) (h : Holds t url q) where
  -- A round of another server.
  other_stored :
      (u : String) (out : Result Exception Window)
      → (u == url) ≡ false
      → Holds (after_round t (map_ok (set_window t u) out)) url q
  unfolding set_window
  other_stored u (raised e) other = h
  other_stored u (ok w) other = record {
    w = h.w;
    found = window-set_window t u url w ∙ rw other h.found;
    ordered = h.ordered;
    queue = h.queue;
  }

  other_round :
      (u : String) (content : Option Histogram) (known : Result Exception Window)
      → (u == url) ≡ false
      → Holds (after_round t (refreshed_from t u content known)) url q
  other_round u content (raised e) other = h
  other_round u content (ok w) other =
      other_stored u (refresh t.refresh_count_per_window w content) other

  -- Its own.
  own_round :
      (content : Option Histogram)
      → Holds (after_round t (refreshed_from t url content (window t url))) url (slide q content)
  own_round content =
      let (w', done, v, slid) = refresh-slide t.refresh_count_per_window h.w h.ordered content in
      let same : after_round t (refreshed_from t url content (window t url)) ≡ set_window t url w' =
        ap (λ r. after_round t (refreshed_from t url content r)) h.found
        ∙ ap (λ r. after_round t (map_ok (set_window t url) r)) done in
      subst (λ t'. Holds t' url (slide q content)) (sym same)
        (subst (λ p. Holds (set_window t url w') url p) (slid ∙ ap (λ p. slide p content) h.queue)
          (stored t url w' v))

rounds-Holds :
    (es : List (String × Fetch)) (t : MetricsTracker) (url : String) (q : Sliding)
    → Holds t url q
    → Holds (rounds es t) url (slides (reports url es) q)
unfolding rounds monitor_server
rounds-Holds [] t url q h = h
rounds-Holds ((u, unreachable) ∷ es) t url q h = rounds-Holds es t url q h
rounds-Holds ((u, failed) ∷ es) t url q h = rounds-Holds es t url q h
rounds-Holds ((u, fetched content) ∷ es) t url q h = elim (Bool-cases (u == url)) [
  | inr other ↦ rw other (
      rounds-Holds es (after_round t (monitor_server t u (fetched content))) url q
        (other_round t url q h u content (window t u) other))
  | inl same ↦ rw same (
      rounds-Holds es (after_round t (monitor_server t u (fetched content))) url (slide q content) (
        subst
          (λ x.
            Holds (after_round t (refreshed_from t x content (window t x))) url (slide q content))
          (sym ((string_eq.decides u url).0 same)) (own_round t url q h content)))
]

abbrev pub unreported : ℕ → Sliding
unreported count = record { past = replicate count []; diff = [] }

new_tracker-Holds :
    (urls : List String) (count : ℕ) (url : String)
    → 0 < count
    → contains url urls ≡ true
    → Holds (new_tracker urls count) url (unreported count)
unfolding new_tracker window
new_tracker-Holds urls count url some_slot known = record {
  w = record { index = 0; last = replicate count []; diff = [] };
  found =
      rw
        (
          lookup-for_each {V = ℕ} url urls 0 known,
          lookup-for_each {V = List Histogram} url urls (replicate count []) known,
          lookup-for_each {V = Histogram} url urls [] known,
        )
        refl;
  ordered = record { in_range = some_slot; full = length-replicate count [] };
  queue = ap (queue []) (append_nil (replicate count []));
}

-- After the rounds of the tasks of all servers, in any order and with any outcomes, the window of each
-- monitored server holds the queue of the reports that were fetched from that server: each report is compared
-- with the oldest entry of the last `count` ones, and takes its place as the newest.
pub rounds-slides :
    (urls : List String) (count : ℕ) (es : List (String × Fetch)) (url : String)
    → 0 < count
    → contains url urls ≡ true
    → Holds (rounds es (new_tracker urls count)) url (slides (reports url es) (unreported count))
rounds-slides urls count es url some_slot known =
    rounds-Holds es (new_tracker urls count) url (unreported count)
      (new_tracker-Holds urls count url some_slot known)
