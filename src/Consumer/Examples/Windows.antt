-- ===== src/Consumer/Examples/Windows.antt =====
-- The theorems about the windows of the metrics tracker at concrete rounds.
use aristote_dispatcher.Common.{ℕ, refl, String, some, List, [], ◌∷◌, arith}
use aristote_dispatcher.Common.Dict.{contains, lookup, get_or}
use aristote_dispatcher.Common.Float.{Float, finite}
use aristote_dispatcher.Common.Int.{pos, ◌-ℤ◌}
use aristote_dispatcher.Consumer.Strategy.Histogram.{Histogram}
use aristote_dispatcher.Consumer.Strategy.Tracker.{new_tracker, Fetch, fetched, unreachable, rounds}
use aristote_dispatcher.Consumer.Strategy.Tracker.Rounds.{
  Holds, slides, reports, unreported, rounds-slides,
}
use aristote_dispatcher.Consumer.Strategy.Tracker.Difference.{HasDiff, rounds_diff}

abbrev urls : List String
urls = "http://a" ∷ "http://b" ∷ []

abbrev bound : Float
bound = finite (pos 100000)

abbrev report : ℕ → Histogram
report n = (bound, pos n) ∷ []

-- A window of two slots, three reports of the first server, and a round of the second in between.
abbrev fetches : List (String × Fetch)
fetches =
    ("http://a", fetched (some (report 4)))
    ∷ ("http://b", fetched (some (report 9)))
    ∷ ("http://a", fetched (some (report 7)))
    ∷ ("http://a", unreachable)
    ∷ ("http://a", fetched (some (report 12)))
    ∷ []

rounds-slides_example :
    Holds
      (rounds fetches (new_tracker urls 2))
      "http://a"
      (slides (reports "http://a" fetches) (unreported 2))
unfolding contains
rounds-slides_example = rounds-slides urls 2 fetches "http://a" (omega arith) refl

rounds_diff_example : HasDiff (rounds fetches (new_tracker urls 2)) "http://a" bound (pos 8)
unfolding contains lookup ◌-ℤ◌ get_or
rounds_diff_example =
    rounds_diff bound urls 2 fetches "http://a" [] (report 7 ∷ []) (report 4) (report 12) refl refl
      ((pos 4, refl), ((pos 7, refl), tt)) (pos 12, refl) refl
