-- ===== src/Consumer/Strategy/Percentile/Least.antt =====
-- The bucket that `get_percentile` finds.
use aristote_dispatcher.Common.{
  ℕ, ◌+◌, ◌≤◌, ◌<◌, ◌≡◌, refl, sym, ap, ◌∙◌, ◌*◌, ◌≢◌, if◌then◌else◌, le→leb, lt→not_leb, ◌⊎◌, inl,
  inr, Bool, true, false, Option, some, [], ◌∷◌, ◌++◌, All, length, arith,
}
use aristote_dispatcher.Common.Exec.{Result, ok, raised}
use aristote_dispatcher.Common.Float.{Float}
use aristote_dispatcher.Common.Int.{ℤ, pos, negsuc, ◌≤ℤ◌, scale_parts}
use mathlib.Core.Bool.{false≢true}
use aristote_dispatcher.Consumer.Exceptions.{Exception, percentile_computation_error}
use aristote_dispatcher.Consumer.Strategy.Histogram.{Histogram}
use aristote_dispatcher.Consumer.Strategy.Percentile.{
  insert_sorted, sorted, last_count, reaches, find_bucket, get_percentile,
}

-- The bucket holds less than the percentile.
abbrev pub Misses : ℕ → ℤ → Float × ℤ → Type 0
Misses percentile total e = reaches percentile total e.1 ≡ false

-- The first bucket that holds the percentile is the answer, with its place among the sorted ones; if none
-- does, the error is raised.
abbrev pub LeastBucket : ℕ → ℤ → ℕ → Histogram → Result Exception (Option (ℕ × Float)) → Type 0
LeastBucket percentile total i h out =
    ((pre : Histogram) × (bucket : Float) × (count : ℤ) × (post : Histogram) × (h
        ≡ pre ++ (bucket, count) ∷ post)
      × All (Misses percentile total) pre
      × (reaches percentile total count ≡ true)
      × (out ≡ ok (some (i + length pre, bucket))))
    ⊎ (All (Misses percentile total) h × (out ≡ raised percentile_computation_error))

later :
    (percentile : ℕ) (total : ℤ) (i : ℕ) (e : Float × ℤ) (h : Histogram)
    {out : Result Exception (Option (ℕ × Float))}
    → Misses percentile total e
    → LeastBucket percentile total (i + 1) h out
    → LeastBucket percentile total i (e ∷ h) out
later percentile total i e h miss (inl (pre, bucket, count, post, split, misses, reached, out)) =
    let place : (i + 1) + length pre ≡ i + length (e ∷ pre) = omega arith in
    inl (e ∷ pre, bucket, count, post, rw split, (miss, misses), reached, rw place at out)
later percentile total i e h miss (inr (misses, out)) = inr ((miss, misses), out)

tried :
    (percentile : ℕ) (total : ℤ) (i : ℕ) (bucket : Float) (count : ℤ) (h : Histogram) (b : Bool)
    {rest : Result Exception (Option (ℕ × Float))}
    → reaches percentile total count ≡ b
    → LeastBucket percentile total (i + 1) h rest
    → LeastBucket percentile total i
        ((bucket, count) ∷ h)
        (if b then ok (some (i, bucket)) else rest)
tried percentile total i bucket count h true reached ih =
    let place : i ≡ i + 0 = omega arith in
    inl ([], bucket, count, h, refl, tt, reached, ap (λ (k : ℕ). ok (some (k, bucket))) place)
tried percentile total i bucket count h false missed ih =
    later percentile total i (bucket, count) h missed ih

find_bucket-LeastBucket :
    (percentile : ℕ) (total : ℤ) (i : ℕ) (h : Histogram)
    → LeastBucket percentile total i h (find_bucket percentile total i h)
unfolding find_bucket
find_bucket-LeastBucket percentile total i [] = inr (tt, refl)
find_bucket-LeastBucket percentile total i ((bucket, count) ∷ h) =
    tried percentile total i bucket count h (reaches percentile total count) refl
      (find_bucket-LeastBucket percentile total (i + 1) h)

-- For every histogram that is not empty: the answer is the first bucket, in the order of the bounds, whose
-- count reaches the percentile of the total, with its index; where no count does, the error is raised.
pub get_percentile-LeastBucket :
    (h : Histogram) (percentile : ℕ)
    → h ≢ []
    → LeastBucket percentile (last_count (sorted h)) 0 (sorted h) (get_percentile h percentile)
unfolding get_percentile
get_percentile-LeastBucket [] percentile some_bucket = absurd (some_bucket refl)
get_percentile-LeastBucket (e ∷ h) percentile some_bucket =
    find_bucket-LeastBucket percentile (last_count (sorted (e ∷ h))) 0 (sorted (e ∷ h))

scaled_le : (j k n : ℕ) → j ≤ k → j * n ≤ k * n
scaled_le j k n h = grind arith

-- A total that is not negative reaches its own percentile.
total_reaches :
    (percentile : ℕ) (total : ℤ)
    → percentile ≤ 100
    → pos 0 ≤ℤ total
    → reaches percentile total total ≡ true
total_reaches percentile (pos n) h k = le→leb _ _ (
    omega (
      arith,
      scale_parts percentile (pos n),
      scale_parts 100 (pos n),
      scaled_le percentile 100 n h,
    ))
total_reaches percentile (negsuc n) h k = absurd (omega arith)

last-Misses :
    (percentile : ℕ) (total : ℤ) (e : Float × ℤ) (h : Histogram)
    → All (Misses percentile total) (e ∷ h)
    → reaches percentile total (last_count (e ∷ h)) ≡ false
last-Misses percentile total e [] misses = misses.0
last-Misses percentile total e (f ∷ h) misses = last-Misses percentile total f h misses.1

insert_sorted_ne_nil : (e : Float × ℤ) (h : Histogram) → insert_sorted e h ≢ []
insert_sorted_ne_nil e [] = λ q. cc
insert_sorted_ne_nil e (x ∷ h) = ground arith

sorted_ne_nil : (e : Float × ℤ) (h : Histogram) → sorted (e ∷ h) ≢ []
unfolding sorted
sorted_ne_nil e h = insert_sorted_ne_nil e (sorted h)

All-miss_negative :
    (percentile : ℕ) (h : Histogram)
    → h ≢ []
    → percentile ≤ 100
    → pos 0 ≤ℤ last_count h
    → All (Misses percentile (last_count h)) h
    → ⊥
All-miss_negative percentile [] ne p k misses = ne refl
All-miss_negative percentile (e ∷ h) ne p k misses =
    let reached = total_reaches percentile (last_count (e ∷ h)) p k in
    let missed = last-Misses percentile (last_count (e ∷ h)) e h misses in
    false≢true (sym missed ∙ reached)

-- In a histogram that is not empty, where the total is not negative, every percentile up to the hundredth is
-- found.
get_percentile_found :
    (h : Histogram) (percentile : ℕ)
    → h ≢ []
    → percentile ≤ 100
    → pos 0 ≤ℤ last_count (sorted h)
    → (i : ℕ) × (bucket : Float) × (get_percentile h percentile ≡ ok (some (i, bucket)))
get_percentile_found [] percentile ne p k = absurd (ne refl)
get_percentile_found (e ∷ h) percentile ne p k =
    elim (get_percentile-LeastBucket (e ∷ h) percentile ne) [
      | inl (pre, bucket, count, post, split, misses, reached, out) ↦ (0 + length pre, bucket, out)
      | inr (misses, out) ↦
          absurd (All-miss_negative percentile (sorted (e ∷ h)) (sorted_ne_nil e h) p k misses)
    ]

abbrev FellBy : ℕ → Float × ℤ → Type 0
FellBy n e = e.1 ≡ negsuc n

insert_sorted-FellBy :
    (n : ℕ) (e : Float × ℤ) (h : Histogram)
    → FellBy n e
    → All (FellBy n) h
    → All (FellBy n) (insert_sorted e h)
insert_sorted-FellBy n e [] f a = (f, tt)
insert_sorted-FellBy n e (x ∷ h) f a = ground (arith, insert_sorted-FellBy n e h f a.1)

sorted-FellBy : (n : ℕ) (h : Histogram) → All (FellBy n) h → All (FellBy n) (sorted h)
unfolding sorted
sorted-FellBy n [] a = tt
sorted-FellBy n (e ∷ h) a = insert_sorted-FellBy n e (sorted h) a.0 (sorted-FellBy n h a.1)

last_count-FellBy : (n : ℕ) (h : Histogram) → h ≢ [] → All (FellBy n) h → last_count h ≡ negsuc n
last_count-FellBy n [] ne a = absurd (ne refl)
last_count-FellBy n ((bucket, count) ∷ []) ne a = a.0
last_count-FellBy n (e ∷ f ∷ h) ne a = last_count-FellBy n (f ∷ h) (λ q. cc) a.1

fallen_misses :
    (percentile n : ℕ) → percentile < 100 → reaches percentile (negsuc n) (negsuc n) ≡ false
fallen_misses percentile n p =
    let more : percentile * (n + 1) < 100 * (n + 1) = grind arith in
    lt→not_leb _ _
      (omega (arith, scale_parts percentile (negsuc n), scale_parts 100 (negsuc n), more))

found_FellBy :
    (n : ℕ) (pre : Histogram) (e : Float × ℤ) (post : Histogram)
    → All (FellBy n) (pre ++ e ∷ post)
    → FellBy n e
found_FellBy n [] e post a = a.0
found_FellBy n (x ∷ pre) e post a = found_FellBy n pre e post a.1

-- After a restart of the inference server the counts of a window may fall. Where every bucket of a
-- histogram that is not empty fell by the same number of requests, a percentile below the hundredth is in
-- no bucket and the error is raised.
pub get_percentile_raises :
    (h : Histogram) (percentile n : ℕ)
    → h ≢ []
    → percentile < 100
    → All (λ e. e.1 ≡ negsuc n) h
    → get_percentile h percentile ≡ raised percentile_computation_error
get_percentile_raises [] percentile n ne p fell = absurd (ne refl)
get_percentile_raises (e ∷ h) percentile n ne p fell =
    let all_fell = sorted-FellBy n (e ∷ h) fell in
    let total = last_count-FellBy n (sorted (e ∷ h)) (sorted_ne_nil e h) all_fell in
    elim (get_percentile-LeastBucket (e ∷ h) percentile ne) [
      | inl (pre, bucket, count, post, split, misses, reached, out) ↦
          let fallen = found_FellBy n pre (bucket, count) post (rw split at all_fell) in
          let met : reaches percentile (negsuc n) (negsuc n) ≡ true =
            rw (total, fallen) at reached in
          absurd (false≢true (sym (fallen_misses percentile n p) ∙ met))
      | inr (misses, out) ↦ out
    ]
