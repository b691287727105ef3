-- ===== src/Consumer/Strategy/LeastBusy/Scores.antt =====
-- The scores that least-busy compares: what the loops collect, and the least of them.
use aristote_dispatcher.Common.{
  ℕ, zero, suc, length, ◌%◌, ◌≡◌, refl, sym, subst, String, string_eq, true, false, ◌||◌, inl, inr,
  Option, none, some, List, [], ◌∷◌, ◌==◌, option_eq, get_elem?, All, arith, eq_iff, Bool-cases,
  Option-cases, if◌then◌else◌,
}
use aristote_dispatcher.Common.Dict.{insert, keys, values, contains, All-insert}
use aristote_dispatcher.Common.Exec.{Result, ok, raised, Result-cases}
use aristote_dispatcher.Common.Float.{
  Float, finite, inf, float_eq, float_beq_iff, ltb_float, minus_one,
}
use aristote_dispatcher.Consumer.Exceptions.{Exception, index_error}
use aristote_dispatcher.Consumer.Strategy.Tracker.{MetricsTracker}
use aristote_dispatcher.Consumer.Strategy.LeastBusy.{
  get_server_score, choice, min_value, min_from, keys_with, least_busy, score_urls,
}

-- The two ways in which the least of two values bounds a third.
below_trans : (x m r : Float) → ltb_float x m ≡ true → ltb_float x r ≡ false → ltb_float m r ≡ false
below_trans (finite a) (finite b) (finite c) h k = ground arith
below_trans (finite a) (finite b) inf h k = k
below_trans (finite a) inf (finite c) h k = refl
below_trans (finite a) inf inf h k = refl
below_trans inf m r h k = cc

not_below_trans :
    (x m r : Float) → ltb_float x m ≡ false → ltb_float m r ≡ false → ltb_float x r ≡ false
not_below_trans (finite a) (finite b) (finite c) h k = ground arith
not_below_trans (finite a) (finite b) inf h k = k
not_below_trans (finite a) inf r h k = cc
not_below_trans inf m r h k = refl

-- No value is below it.
abbrev pub Least : Float → List Float → Type 0
Least m vs = All (λ v. ltb_float v m ≡ false) vs

min_from-Least :
    (m : Float) (vs : List Float) → (ltb_float m (min_from m vs) ≡ false) × Least (min_from m vs) vs
min_from-Least (finite a) [] = (ground arith, tt)
min_from-Least inf [] = (refl, tt)
min_from-Least m (x ∷ vs) = elim (Bool-cases (ltb_float x m)) [
  | inl below ↦
      let (first, rest) = min_from-Least x vs in
      let e : min_from m (x ∷ vs) ≡ min_from x vs = rw below refl in
      subst (λ r. (ltb_float m r ≡ false) × Least r (x ∷ vs)) (sym e)
        (below_trans x m (min_from x vs) below first, (first, rest))
  | inr above ↦
      let (first, rest) = min_from-Least m vs in
      let e : min_from m (x ∷ vs) ≡ min_from m vs = rw above refl in
      subst (λ r. (ltb_float m r ≡ false) × Least r (x ∷ vs)) (sym e)
        (first, (not_below_trans x m (min_from m vs) above first, rest))
]

min_value-Least : (vs : List Float) (m : Float) → min_value vs ≡ ok m → Least m vs
unfolding min_value
min_value-Least [] m h = cc
min_value-Least (x ∷ vs) m h =
    let e : min_from x vs ≡ m = cc in subst (λ r. Least r (x ∷ vs)) e (min_from-Least x vs)

pub All-get_elem? :
    {A : Type 0} (P : A → Type 0) (xs : List A) (i : ℕ) (x : A)
    → All P xs
    → get_elem? xs i ≡ some x
    → P x
All-get_elem? P [] i x a h = cc
All-get_elem? P (y ∷ xs) zero x a h = let e : y ≡ x = ground arith in subst P e a.0
All-get_elem? P (y ∷ xs) (suc i) x a h = All-get_elem? P xs i x a.1 h

module _ (t : MetricsTracker) where
  -- The entry is a url with its score.
  abbrev pub Scored : String × Float → Type 0
  Scored e = get_server_score t e.0 ≡ ok e.1

  -- The url has that score.
  abbrev pub HasScore : Float → String → Type 0
  HasScore v url = get_server_score t url ≡ ok v

  keys_with-HasScore :
      (m : Float) (scores : List (String × Float))
      → All Scored scores
      → All (HasScore m) (keys_with m scores)
  unfolding keys_with
  keys_with-HasScore m [] a = tt
  keys_with-HasScore m ((k, v) ∷ scores) a = elim (Bool-cases (v == m)) [
    | inl same ↦
        let e = (float_beq_iff v m).0 same in
        rw same (subst (λ x. get_server_score t k ≡ ok x) e a.0, keys_with-HasScore m scores a.1)
    | inr other ↦ rw other (keys_with-HasScore m scores a.1)
  ]

  pub least_busy-HasScore :
      (pick : ℕ) (scores : List (String × Float)) (url : String) (m : Float)
      → All Scored scores
      → least_busy pick scores ≡ ok (url, m)
      → HasScore m url × Least m (values scores)
  unfolding least_busy choice
  least_busy-HasScore pick scores url m a h = elim (Result-cases (min_value (values scores))) [
    | inr (e, failed) ↦
        let bad : Path (Result Exception (String × Float)) (raised e) (ok (url, m)) =
          rw failed at h in
        cc
    | inl (l, least) ↦
        elim (Option-cases (get_elem? (keys_with l scores) (pick % length (keys_with l scores)))) [
          | inl nothing ↦
              let bad : Path (Result Exception (String × Float)) (raised index_error)
                  (ok (url, m)) =
                rw (least, nothing) at h in
              cc
          | inr (k, found) ↦
              let same : Path (Result Exception (String × Float)) (ok (k, l)) (ok (url, m)) =
                rw (least, found) at h in
              let value : l ≡ m = cc in
              let key : k ≡ url = cc in
              let scored =
                All-get_elem? (HasScore l) (keys_with l scores) (pick % length (keys_with l scores))
                  k (keys_with-HasScore l scores a) found in
              subst (λ x. HasScore x url × Least x (values scores)) value
                (subst (HasScore l) key scored, min_value-Least (values scores) l least)
        ]
  ]

  abbrev pub LeastScored : Option String → Type 0
  LeastScored none = Unit
  LeastScored (some url) = HasScore minus_one url

  abbrev pub HasKey : List (String × Float) → String → Type 0
  HasKey scores url = contains url (keys scores) ≡ true

  kept_least :
      (v : Float) (url : String) (least : Option String)
      → HasScore v url
      → LeastScored least
      → LeastScored (if v == minus_one then some url else least)
  kept_least v url least h l = elim (Bool-cases (v == minus_one)) [
    | inl same ↦ rw same (subst (λ x. HasScore x url) ((float_beq_iff v minus_one).0 same) h)
    | inr other ↦ rw other l
  ]

  contains-insert_key :
      (u url : String) (v : Float) (scores : List (String × Float))
      → contains u (keys (insert url v scores)) ≡ (url == u || contains u (keys scores))
  unfolding insert contains
  contains-insert_key u url v [] = refl
  contains-insert_key u url v ((k, w) ∷ scores) =
      ground (arith, eq_iff k url, eq_iff k u, eq_iff url u, contains-insert_key u url v scores)

  pub score_urls_lem :
      (urls : List String) (scores : List (String × Float)) (least : Option String)
      (scores' : List (String × Float)) (least' : Option String)
      → All Scored scores
      → LeastScored least
      → score_urls t urls scores least ≡ ok (scores', least')
      → All Scored scores'
        × LeastScored least'
        × All (HasKey scores') urls
        × ((u : String) → HasKey scores u → HasKey scores' u)
  unfolding score_urls
  score_urls_lem [] scores least scores' least' a l h =
      let same_scores : scores ≡ scores' = cc in
      let same_least : least ≡ least' = cc in
      (
        subst (All Scored) same_scores a,
        subst LeastScored same_least l,
        tt,
        λ u k. subst (λ x. HasKey x u) same_scores k,
      )
  score_urls_lem (url ∷ urls) scores least scores' least' a l h =
      elim (Result-cases (get_server_score t url)) [
        | inr (e, failed) ↦
            let bad : Path (Result Exception (List (String × Float) × Option String)) (raised e)
                (ok (scores', least')) =
              rw failed at h in
            cc
        | inl (v, scored) ↦
            let (a', l', found, kept) =
              score_urls_lem urls (insert url v scores) (if v == minus_one then some url else least)
                scores' least' (All-insert Scored url v scores scored a)
                (kept_least v url least scored l) (rw scored at h) in
            let here : HasKey (insert url v scores) url =
              ground (arith, contains-insert_key url url v scores, eq_iff url url) in
            (
              a',
              l',
              (kept url here, found),
              λ u k. kept u (ground (arith, k, contains-insert_key u url v scores)),
            )
      ]
