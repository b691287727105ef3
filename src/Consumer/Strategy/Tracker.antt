-- ===== src/Consumer/Strategy/Tracker.antt =====
-- strategy/metrics_tracker.py: what is known of the latency of each server, by url. A text of metrics
-- is represented by the histogram that `Histogram.parse` reads from it, an empty text by `none`.
pub mod Ring
pub mod Sliding
pub mod Rounds
pub mod Values
pub mod Difference
use aristote_dispatcher.Common.{
  ℕ, ◌+◌, ◌%◌, String, string_eq, Bool, true, false, Option, none, some, List, [], ◌∷◌, replicate,
  get_elem?, set, if◌then◌else◌,
}
use aristote_dispatcher.Common.Dict.{lookup, insert, update}
use aristote_dispatcher.Common.Exec.{Result, ok, raised}
use aristote_dispatcher.Common.Float.{float_eq}
use aristote_dispatcher.Consumer.Exceptions.{Exception, key_error, index_error}
use aristote_dispatcher.Consumer.Strategy.Histogram.{Histogram, sub}

pub record MetricsTracker : Type 0 where
  pub urls : List String
  pub refresh_count_per_window : ℕ
  pub window_indexes : List (String × ℕ)
  pub last_histograms : List (String × List Histogram)
  pub diff_histograms : List (String × Histogram)
  pub monitoring : Bool
  pub monitor_tasks : List String

abbrev pub for_each {ℓ} : {V : Type ℓ} → List String → V → List (String × V)
for_each [] v = []
for_each (u ∷ us) v = insert u v (for_each us v)

-- `__init__`
unfoldable pub new_tracker : List String → ℕ → MetricsTracker
new_tracker urls count = record {
  urls = urls;
  refresh_count_per_window = count;
  window_indexes = for_each urls 0;
  last_histograms = for_each urls (replicate count []);
  diff_histograms = for_each urls [];
  monitoring = false;
  monitor_tasks = [];
}

-- What the three dictionaries hold for one url.
pub record Window : Type 0 where
  pub index : ℕ
  pub last : List Histogram
  pub diff : Histogram

abbrev pub updated : Window → Histogram → Histogram → Window
updated w new last = record w {
  last = set w.last w.index (update last new);
  diff = update w.diff (sub new last);
}

abbrev pub update_slot : Window → Histogram → Option Histogram → Result Exception Window
update_slot w new none = raised index_error
update_slot w new (some last) = ok (updated w new last)

-- `update_histogram` on the slot of the window that the index names; both histograms are changed in
-- place.
unfoldable pub update_histogram : Window → Histogram → Result Exception Window
update_histogram w new = update_slot w new (get_elem? w.last w.index)

-- The body of `update_all_metrics_for_server` behind the request.
unfoldable pub update_metrics : Window → Option Histogram → Result Exception Window
update_metrics w none = ok w
update_metrics w (some new) = update_histogram w new

abbrev pub advance : ℕ → Window → Window
advance count w = record w { index = (w.index + 1) % count }

abbrev pub map_ok : {A B : Type 0} → (A → B) → Result Exception A → Result Exception B
map_ok f (ok a) = ok (f a)
map_ok f (raised e) = raised e

-- One round of `_monitor_server` that fetched the metrics: the update, then the next index.
unfoldable pub refresh : ℕ → Window → Option Histogram → Result Exception Window
refresh count w content = map_ok (advance count) (update_metrics w content)

abbrev pub window_of :
    Option ℕ → Option (List Histogram) → Option Histogram → Result Exception Window
window_of none last diff = raised key_error
window_of (some index) none diff = raised key_error
window_of (some index) (some last) none = raised key_error
window_of (some index) (some last) (some diff) =
    ok (record { index = index; last = last; diff = diff })

-- The entries of a url, and their replacement. A url that is not in the dictionaries is a KeyError.
unfoldable pub window : MetricsTracker → String → Result Exception Window
window t url =
    window_of (lookup url t.window_indexes) (lookup url t.last_histograms)
      (lookup url t.diff_histograms)

unfoldable pub set_window : MetricsTracker → String → Window → MetricsTracker
set_window t url w = record t {
  window_indexes = insert url w.index t.window_indexes;
  last_histograms = insert url w.last t.last_histograms;
  diff_histograms = insert url w.diff t.diff_histograms;
}

-- What came of the request of a round: metrics, a refused connection, another exception.
pub data Fetch : Type 0 where
  fetched : Option Histogram → Fetch
  unreachable failed : Fetch

abbrev pub refreshed_from :
    MetricsTracker
    → String
    → Option Histogram
    → Result Exception Window
    → Result Exception MetricsTracker
refreshed_from t url content (raised e) = raised e
refreshed_from t url content (ok w) =
    map_ok (set_window t url) (refresh t.refresh_count_per_window w content)

abbrev refreshed : MetricsTracker → String → Option Histogram → Result Exception MetricsTracker
refreshed t url content = refreshed_from t url content (window t url)

-- One round of `_monitor_server`. A refused connection leaves the loop going; an exception that is not
-- caught ends the task of this url.
unfoldable pub monitor_server : MetricsTracker → String → Fetch → Result Exception MetricsTracker
monitor_server t url (fetched content) = refreshed t url content
monitor_server t url unreachable = ok t
monitor_server t url failed = raised Exception.rejected

abbrev pub after_round : MetricsTracker → Result Exception MetricsTracker → MetricsTracker
after_round t (ok t') = t'
after_round t (raised e) = t

-- The rounds of the tasks of all urls, in the order in which they come to their end. The object stays as it
-- is where a round raises; what raised ends its task, which has no round after it.
unfoldable pub rounds : List (String × Fetch) → MetricsTracker → MetricsTracker
rounds [] t = t
rounds ((url, fetch) ∷ es) t = rounds es (after_round t (monitor_server t url fetch))

unfoldable pub update_urls : List String → MetricsTracker → MetricsTracker
update_urls urls t = record t { urls = urls }

-- `monitor` makes a task for each url, unless monitoring is on.
unfoldable pub monitor : MetricsTracker → MetricsTracker
monitor t = if t.monitoring then t else record t { monitoring = true; monitor_tasks = t.urls }

-- `stop_monitor` cancels the tasks and waits for them.
unfoldable pub stop_monitor : MetricsTracker → MetricsTracker
stop_monitor t = if t.monitoring then record t { monitoring = false; monitor_tasks = [] } else t
