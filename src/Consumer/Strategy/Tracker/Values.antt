-- ===== src/Consumer/Strategy/Tracker/Values.antt =====
-- What the window of a server says of a bucket.
use aristote_dispatcher.Common.{
  append_assoc, append_nil, ℕ, zero, suc, ◌<◌, ◌≡◌, refl, sym, ap, ◌∙◌, string_eq, true, some, List,
  [], ◌∷◌, ◌++◌, ◌==◌, inl, inr, arith, length, length-append, length-replicate, replicate, drop,
  map, All, Bool-cases,
}
use aristote_dispatcher.Common.Dict.{lookup, get_or, update, keys, contains, lookup-update}
use aristote_dispatcher.Common.Float.{Float, float_eq}
use aristote_dispatcher.Common.Int.{ℤ, pos, ◌-ℤ◌}
use aristote_dispatcher.Consumer.Strategy.Histogram.{Histogram, sub, union, entries}
use aristote_dispatcher.Consumer.Strategy.Tracker.Rounds.{slides, unreported}
use aristote_dispatcher.Consumer.Strategy.Tracker.Sliding.{Sliding, slid, slide}

-- What a histogram has for a bucket, 0 if nothing.
abbrev pub count_at : Float → Histogram → ℤ
count_at k h = get_or k (pos 0) h

abbrev pub HasBucket : Float → Histogram → Type 0
HasBucket k h = (v : ℤ) × (lookup k h ≡ some v)

contains-keys : (k : Float) (h : Histogram) → HasBucket k h → contains k (keys h) ≡ true
unfolding contains lookup
contains-keys k [] (v, e) = cc
contains-keys k ((j, w) ∷ h) (v, e) = elim (Bool-cases (j == k)) [
  | inl same ↦ rw same refl
  | inr other ↦ rw other (contains-keys k h (v, rw other at e))
]

contains-union :
    (k : Float) (xs ys : List Float) → contains k xs ≡ true → contains k (union xs ys) ≡ true
unfolding contains union
contains-union k xs [] h = h
contains-union k xs (y ∷ ys) h = ground (arith, contains-union k xs ys)

lookup-entries :
    (k : Float) (h other : Histogram) (ks : List Float)
    → contains k ks ≡ true
    → lookup k (entries h other ks) ≡ some (count_at k h -ℤ count_at k other)
unfolding lookup contains
lookup-entries k h other [] e = cc
lookup-entries k h other (j ∷ ks) e = elim (Bool-cases (j == k)) [
  | inl same ↦
      rw same (ap (λ i. some (count_at i h -ℤ count_at i other)) ((float_eq.decides j k).0 same))
  | inr different ↦ rw different (lookup-entries k h other ks (rw different at e))
]

-- A bucket of the newer histogram has the difference.
lookup-sub :
    (k : Float) (h other : Histogram)
    → HasBucket k h
    → lookup k (sub h other) ≡ some (count_at k h -ℤ count_at k other)
unfolding sub
lookup-sub k h other has =
    lookup-entries k h other (union (keys h) (keys other))
      (contains-union k (keys h) (keys other) (contains-keys k h has))

count_at-update :
    (k : Float) (m n : Histogram) (v : ℤ) → lookup k n ≡ some v → count_at k (update m n) ≡ v
unfolding get_or
count_at-update k m n v h = rw (lookup-update k m n, h) refl

module _ (k : Float) where
  abbrev counts : List Histogram → List ℤ
  counts hs = map (count_at k) hs

  pub counts-append : (xs ys : List Histogram) → counts (xs ++ ys) ≡ counts xs ++ counts ys
  counts-append [] ys = refl
  counts-append (x ∷ xs) ys = ap (λ t. count_at k x ∷ t) (counts-append xs ys)

  counts-replicate : (n : ℕ) → counts (replicate n []) ≡ replicate n (pos 0)
  unfolding get_or lookup
  counts-replicate zero = refl
  counts-replicate (suc n) = ap (λ t. pos 0 ∷ t) (counts-replicate n)

  -- The entry that takes the report in has what the report has.
  taken_in : (old new : Histogram) → HasBucket k new → count_at k (update old new) ≡ count_at k new
  unfolding get_or
  taken_in old new (v, e) = count_at-update k old new v e ∙ rw e refl

  slides-counts :
      (hs past : List Histogram) (diff : Histogram)
      → All (HasBucket k) hs
      → 0 < length past
      → counts (slides (map some hs) (record { past = past; diff = diff })).past
        ≡ drop (length hs) (counts past ++ counts hs)
  slides-counts [] past diff has some_past = sym (append_nil (counts past))
  slides-counts (h ∷ hs) [] diff has some_past = absurd (omega arith)
  slides-counts (h ∷ hs) (old ∷ past) diff has some_past =
      let longer : 0 < length (past ++ update old h ∷ []) =
        omega (arith, length-append past (update old h ∷ [])) in
      slides-counts hs (past ++ update old h ∷ []) (update diff (sub h old)) has.1 longer
      ∙ ap (λ p. drop (length hs) (p ++ counts hs))
          (counts-append past (update old h ∷ [])
            ∙ ap (λ v. counts past ++ v ∷ []) (taken_in old h has.0))
      ∙ ap (drop (length hs)) (sym (append_assoc (counts past) (count_at k h ∷ []) (counts hs)))

  -- What a round makes of the difference.
  slid_diff :
      (past : List Histogram) (diff new : Histogram) (v : ℤ) (vs : List ℤ)
      → counts past ≡ v ∷ vs
      → HasBucket k new
      → count_at k (slid past diff (some new)).diff ≡ count_at k new -ℤ v
  slid_diff [] diff new v vs e has = cc
  slid_diff (old ∷ past) diff new v vs e has =
      let oldest : count_at k old ≡ v = cc in
      count_at-update k diff (sub new old) (count_at k new -ℤ count_at k old)
        (lookup-sub k new old has)
      ∙ ap (λ x. count_at k new -ℤ x) oldest

  slides_snoc :
      (hs : List Histogram) (new : Histogram) (q : Sliding)
      → slides (map some (hs ++ new ∷ [])) q ≡ slide (slides (map some hs) q) (some new)
  slides_snoc [] new q = refl
  slides_snoc (h ∷ hs) new q = slides_snoc hs new (slide q (some h))

  pub last_diff :
      (count : ℕ) (hs : List Histogram) (new : Histogram) (v : ℤ) (vs : List ℤ)
      → 0 < count
      → All (HasBucket k) hs
      → HasBucket k new
      → drop (length hs) (replicate count (pos 0) ++ counts hs) ≡ v ∷ vs
      → count_at k (slides (map some (hs ++ new ∷ [])) (unreported count)).diff
        ≡ count_at k new -ℤ v
  last_diff count hs new v vs some_slot has bucket e =
      let q = slides (map some hs) (unreported count) in
      let past : counts q.past ≡ v ∷ vs =
        slides-counts hs (replicate count []) [] has
          (omega (arith, length-replicate {A = Histogram} count []))
        ∙ ap (λ p. drop (length hs) (p ++ counts hs)) (counts-replicate count)
        ∙ e in
      ap (λ (p : Sliding). count_at k p.diff) (slides_snoc hs new (unreported count))
      ∙ slid_diff q.past q.diff new v vs past bucket
