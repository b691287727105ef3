-- ===== src/Consumer/Strategy/Percentile/Total.antt =====
-- The total of a histogram.
use aristote_dispatcher.Common.{◌≡◌, refl, [], ◌∷◌, ◌++◌, All, arith}
use aristote_dispatcher.Common.Float.{Float, finite, inf}
use aristote_dispatcher.Common.Int.{ℤ}
use aristote_dispatcher.Consumer.Strategy.Histogram.{Histogram}
use aristote_dispatcher.Consumer.Strategy.Percentile.{insert_sorted, sorted, last_count}

abbrev pub IsFinite : Float × ℤ → Type 0
IsFinite (finite a, count) = Unit
IsFinite (inf, count) = ⊥

-- Finite buckets, and the infinite one with that count behind them.
abbrev EndsAt : ℤ → Histogram → Type 0
EndsAt c [] = ⊥
EndsAt c ((finite a, v) ∷ h) = EndsAt c h
EndsAt c ((inf, v) ∷ []) = v ≡ c
EndsAt c ((inf, v) ∷ e ∷ h) = ⊥

last_count_of_EndsAt : (c : ℤ) (h : Histogram) → EndsAt c h → last_count h ≡ c
last_count_of_EndsAt c [] e = absurd e
last_count_of_EndsAt c ((inf, v) ∷ []) e = e
last_count_of_EndsAt c ((inf, v) ∷ x ∷ h) e = absurd e
last_count_of_EndsAt c ((finite a, v) ∷ []) e = absurd e
last_count_of_EndsAt c ((finite a, v) ∷ x ∷ h) e = last_count_of_EndsAt c (x ∷ h) e

insert-IsFinite :
    (e : Float × ℤ) (h : Histogram) → IsFinite e → All IsFinite h → All IsFinite (insert_sorted e h)
insert-IsFinite e [] f a = (f, tt)
insert-IsFinite (inf, v) (x ∷ h) f a = absurd f
insert-IsFinite (finite b, v) ((inf, w) ∷ h) f a = absurd a.0
insert-IsFinite (finite b, v) ((finite c, w) ∷ h) f a =
    ground (arith, insert-IsFinite (finite b, v) h f a.1)

insert_infinite : (c : ℤ) (h : Histogram) → All IsFinite h → EndsAt c (insert_sorted (inf, c) h)
insert_infinite c [] a = refl
insert_infinite c ((finite b, v) ∷ h) a = insert_infinite c h a.1
insert_infinite c ((inf, v) ∷ h) a = absurd a.0

insert_EndsAt :
    (c : ℤ) (e : Float × ℤ) (h : Histogram) → IsFinite e → EndsAt c h → EndsAt c (insert_sorted e h)
insert_EndsAt c (inf, v) h f a = absurd f
insert_EndsAt c (finite b, v) [] f a = absurd a
insert_EndsAt c (finite b, v) ((inf, w) ∷ []) f a = a
insert_EndsAt c (finite b, v) ((inf, w) ∷ x ∷ h) f a = absurd a
insert_EndsAt c (finite b, v) ((finite d, w) ∷ h) f a =
    ground (arith, insert_EndsAt c (finite b, v) h f a)

sorted-IsFinite : (h : Histogram) → All IsFinite h → All IsFinite (sorted h)
unfolding sorted
sorted-IsFinite [] a = tt
sorted-IsFinite (e ∷ h) a = insert-IsFinite e (sorted h) a.0 (sorted-IsFinite h a.1)

sorted-EndsAt :
    (c : ℤ) (pre post : Histogram)
    → All IsFinite pre
    → All IsFinite post
    → EndsAt c (sorted (pre ++ (inf, c) ∷ post))
unfolding sorted
sorted-EndsAt c [] post a b = insert_infinite c (sorted post) (sorted-IsFinite post b)
sorted-EndsAt c (e ∷ pre) post a b =
    insert_EndsAt c e (sorted (pre ++ (inf, c) ∷ post)) a.0 (sorted-EndsAt c pre post a.1 b)

-- Wherever the infinite bucket stands in a histogram that has one, its count is the total that the
-- percentile is taken of.
last_count-sorted :
    (c : ℤ) (pre post : Histogram)
    → All IsFinite pre
    → All IsFinite post
    → last_count (sorted (pre ++ (inf, c) ∷ post)) ≡ c
last_count-sorted c pre post a b =
    last_count_of_EndsAt c (sorted (pre ++ (inf, c) ∷ post)) (sorted-EndsAt c pre post a b)
