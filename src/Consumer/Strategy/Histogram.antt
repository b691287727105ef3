-- ===== src/Consumer/Strategy/Histogram.antt =====
-- strategy/histogram.py: a latency histogram maps the upper bound of a bucket to the number of
-- requests at or under it. vLLM exposes whole numbers; differences may be negative.
use aristote_dispatcher.Common.{List, [], ◌∷◌, if◌then◌else◌}
use aristote_dispatcher.Common.Dict.{get_or, keys, contains}
use aristote_dispatcher.Common.Float.{Float, float_eq}
use aristote_dispatcher.Common.Int.{ℤ, pos, ◌-ℤ◌}

abbrev pub Histogram : Type 0
Histogram = List (Float × ℤ)

-- `set(xs) | set(ys)`
unfoldable pub union : List Float → List Float → List Float
union xs [] = xs
union xs (y ∷ ys) = let rest = union xs ys in if contains y xs then rest else y ∷ rest

abbrev pub entries : Histogram → Histogram → List Float → Histogram
entries h other [] = []
entries h other (k ∷ ks) = (k, get_or k (pos 0) h -ℤ get_or k (pos 0) other) ∷ entries h other ks

-- `__sub__`, which `diff` is another name of.
unfoldable pub sub : Histogram → Histogram → Histogram
unfolding union
sub h other = entries h other (union (keys h) (keys other))
