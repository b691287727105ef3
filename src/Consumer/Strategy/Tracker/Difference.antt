-- ===== src/Consumer/Strategy/Tracker/Difference.antt =====
-- The difference that the tracker keeps for a server, from its reports.
use aristote_dispatcher.Common.{
  append_assoc, ℕ, suc, ◌<◌, ◌≡◌, ap, ◌∙◌, String, string_eq, true, some, List, [], ◌∷◌, ◌++◌,
  arith, length, length-append, length-map, length-replicate, replicate, drop, map, All,
}
use aristote_dispatcher.Common.Dict.{contains}
use aristote_dispatcher.Common.Exec.{ok}
use aristote_dispatcher.Common.Float.{Float, float_eq}
use aristote_dispatcher.Common.Int.{ℤ, pos, ◌-ℤ◌, -ℤ_zero}
use aristote_dispatcher.Consumer.Strategy.Histogram.{Histogram}
use aristote_dispatcher.Consumer.Strategy.Tracker.{
  MetricsTracker, Window, window, new_tracker, Fetch, rounds,
}
use aristote_dispatcher.Consumer.Strategy.Tracker.Rounds.{
  reports, slides, unreported, rounds-slides,
}
use aristote_dispatcher.Consumer.Strategy.Tracker.Sliding.{Sliding}
use aristote_dispatcher.Consumer.Strategy.Tracker.Ring.{drop-append, drop-replicate}
use aristote_dispatcher.Consumer.Strategy.Tracker.Values.{
  count_at, HasBucket, counts-append, last_diff,
}

-- The window of a server after its rounds, with that difference at a bucket.
abbrev pub HasDiff : MetricsTracker → String → Float → ℤ → Type 0
HasDiff t url k v = (w : Window) × (window t url ≡ ok w) × (count_at k w.diff ≡ v)

reported_diff :
    (k : Float) (urls : List String) (count : ℕ) (es : List (String × Fetch)) (url : String)
    (hs : List Histogram) (new : Histogram) (v : ℤ) (vs : List ℤ)
    → 0 < count
    → contains url urls ≡ true
    → All (HasBucket k) hs
    → HasBucket k new
    → reports url es ≡ map some (hs ++ new ∷ [])
    → drop (length hs) (replicate count (pos 0) ++ map (count_at k) hs) ≡ v ∷ vs
    → HasDiff (rounds es (new_tracker urls count)) url k (count_at k new -ℤ v)
reported_diff k urls count es url hs new v vs some_slot known has bucket reported e =
    let held = rounds-slides urls count es url some_slot known in
    (
      held.w,
      held.found,
      ap (λ (q : Sliding). count_at k q.diff) held.queue
          ∙ ap (λ l. count_at k (slides l (unreported count)).diff) reported
          ∙ last_diff k count hs new v vs some_slot has bucket e,
    )

-- For a monitored server of whose reports none is empty, all have the bucket `k`, and there are more than the
-- `count` slots of its window: at that bucket, the difference that the tracker keeps is what its newest report
-- says less what the report `count` ones before said, whatever the rounds of the other servers do in between.
pub rounds_diff :
    (k : Float) (urls : List String) (count : ℕ) (es : List (String × Fetch)) (url : String)
    (before between : List Histogram) (older new : Histogram)
    → contains url urls ≡ true
    → suc (length between) ≡ count
    → All (HasBucket k) (before ++ older ∷ between)
    → HasBucket k new
    → reports url es ≡ map some ((before ++ older ∷ between) ++ new ∷ [])
    → HasDiff (rounds es (new_tracker urls count)) url k (count_at k new -ℤ count_at k older)
rounds_diff k urls count es url before between older new known full has bucket reported =
    reported_diff k urls count es url (before ++ older ∷ between) new (count_at k older)
      (map (count_at k) between) (omega arith) known has bucket reported
      (ap (drop (length (before ++ older ∷ between))) (
          ap (λ t. replicate count (pos 0) ++ t) (counts-append k before (older ∷ between))
          ∙ append_assoc (replicate count (pos 0)) (map (count_at k) before)
              (map (count_at k) (older ∷ between)))
        ∙ drop-append (replicate count (pos 0) ++ map (count_at k) before)
            (map (count_at k) (older ∷ between)) (length (before ++ older ∷ between))
            (omega (
              arith,
              full,
              length-append (replicate count (pos 0)) (map (count_at k) before),
              length-replicate count (pos 0),
              length-map before (count_at k),
              length-append before (older ∷ between),
            )))

-- For a monitored server with no more reports than its window has slots: the difference is, at a bucket that
-- all reports have, what the newest one says.
rounds_diff_start :
    (k : Float) (urls : List String) (count : ℕ) (es : List (String × Fetch)) (url : String)
    (earlier : List Histogram) (new : Histogram)
    → contains url urls ≡ true
    → length earlier < count
    → All (HasBucket k) earlier
    → HasBucket k new
    → reports url es ≡ map some (earlier ++ new ∷ [])
    → HasDiff (rounds es (new_tracker urls count)) url k (count_at k new)
rounds_diff_start k urls count es url earlier new known few has bucket reported =
    let (rest, first) =
      drop-replicate (pos 0) (map (count_at k) earlier) (length earlier) count few in
    let (w, found, e) =
      reported_diff k urls count es url earlier new (pos 0) rest (omega arith) known has bucket
        reported first in
    (w, found, e ∙ -ℤ_zero (count_at k new))
