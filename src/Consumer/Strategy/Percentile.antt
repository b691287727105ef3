-- ===== src/Consumer/Strategy/Percentile.antt =====
-- The static methods of strategy/least_busy.py that score one histogram. `0.95 * total <= count` is
-- compared exactly, in hundredths; for whole counts the rounding of floats does not change it.
-- The proofs are in `Total` and `Least`.
pub mod Total
pub mod Least
use aristote_dispatcher.Common.{ℕ, ◌+◌, Bool, Option, none, some, [], ◌∷◌, if◌then◌else◌}
use aristote_dispatcher.Common.Exec.{Result, ok, raised}
use aristote_dispatcher.Common.Float.{Float, ltb_float, minus_one}
use aristote_dispatcher.Common.Int.{ℤ, pos, scale, leb_ℤ}
use aristote_dispatcher.Consumer.Exceptions.{Exception, percentile_computation_error}
use aristote_dispatcher.Consumer.Strategy.Histogram.{Histogram}

-- `sorted(histogram.items())`. The bounds of a dictionary differ, so the counts are never compared.
abbrev pub insert_sorted : Float × ℤ → Histogram → Histogram
insert_sorted e [] = e ∷ []
insert_sorted e (x ∷ xs) =
    let rest = insert_sorted e xs in if ltb_float x.0 e.0 then x ∷ rest else e ∷ x ∷ xs

unfoldable pub sorted : Histogram → Histogram
sorted [] = []
sorted (e ∷ h) = insert_sorted e (sorted h)

-- `sorted_buckets[-1][1]`; 0 stands for the empty list, which the caller excludes.
abbrev pub last_count : Histogram → ℤ
last_count [] = pos 0
last_count ((bucket, count) ∷ []) = count
last_count (e ∷ f ∷ h) = last_count (f ∷ h)

-- `count >= percentile * total`, the percentile in hundredths.
abbrev pub reaches : ℕ → ℤ → ℤ → Bool
reaches percentile total count = leb_ℤ (scale percentile total) (scale 100 count)

unfoldable pub find_bucket : ℕ → ℤ → ℕ → Histogram → Result Exception (Option (ℕ × Float))
find_bucket percentile total i [] = raised percentile_computation_error
find_bucket percentile total i ((bucket, count) ∷ h) =
    let rest = find_bucket percentile total (i + 1) h in
    if reaches percentile total count then ok (some (i, bucket)) else rest

unfoldable pub get_percentile : Histogram → ℕ → Result Exception (Option (ℕ × Float))
get_percentile [] percentile = ok none
get_percentile (e ∷ h) percentile =
    let buckets = sorted (e ∷ h) in find_bucket percentile (last_count buckets) 0 buckets

unfoldable pub business_score : Option (ℕ × Float) → Float
business_score none = minus_one
business_score (some (i, bucket)) = bucket
