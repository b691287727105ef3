-- ===== src/Consumer/Strategy/LeastBusy/Best.antt =====
-- Which server least-busy hands out.
use aristote_dispatcher.Common.{
  ℕ, ◌≡◌, refl, sym, ◌∙◌, subst, String, string_eq, false, ◌⊎◌, inl, inr, Option, none, some, List,
  [], ◌∷◌, ◌==◌, option_eq, All, eq_iff, option_beq_iff, Bool-cases,
}
use aristote_dispatcher.Common.Dict.{values, contains}
use aristote_dispatcher.Common.Exec.{Result, ok, raised, Result-cases}
use aristote_dispatcher.Common.Float.{Float, float_eq, ltb_float, minus_one}
use aristote_dispatcher.Consumer.Exceptions.{Exception}
use aristote_dispatcher.Consumer.Server.{VllmServer}
use aristote_dispatcher.Consumer.Strategy.Tracker.{MetricsTracker, map_ok}
use aristote_dispatcher.Consumer.Strategy.LeastBusy.{
  LeastBusy, get_server_score, least_busy, score_urls, is_truthy, select_url, find_server,
  with_some, scored_server, choose_server,
}
use aristote_dispatcher.Consumer.Strategy.LeastBusy.Scores.{
  Least, HasScore, Scored, LeastScored, HasKey, least_busy-HasScore, score_urls_lem,
}

module _ (t : MetricsTracker) where
  -- Every score is known, and none is below the value.
  no_score_below :
      (m : Float) (scores : List (String × Float)) (u : String) (w : Float)
      → All (Scored t) scores
      → Least m (values scores)
      → (HasKey t) scores u
      → (HasScore t) w u
      → ltb_float w m ≡ false
  unfolding contains
  no_score_below m [] u w a l k h = cc
  no_score_below m ((key, v) ∷ scores) u w a l k h = elim (Bool-cases (key == u)) [
    | inl same ↦
        let here : (HasScore t) v u = subst ((HasScore t) v) ((eq_iff key u).0 same) a.0 in
        let both : Path (Result Exception Float) (ok v) (ok w) = sym here ∙ h in
        let value : v ≡ w = cc in subst (λ x. ltb_float x m ≡ false) value l.0
    | inr other ↦ no_score_below m scores u w a.1 l.1 (rw other at k) h
  ]

  -- A server that was never measured comes first, without a score; otherwise the score is the least one.
  abbrev pub IsBest : List String → String → Option Float → Type 0
  IsBest urls url time =
      ((time ≡ none) × (get_server_score t url ≡ ok minus_one))
      ⊎ ((v : Float) × (time ≡ some v)
          × (get_server_score t url ≡ ok v)
          × All (λ u. (w : Float) → get_server_score t u ≡ ok w → ltb_float w v ≡ false) urls)

  abbrev Found : List String → Option String → Option Float → Type 0
  Found urls none time = Unit
  Found urls (some url) time = IsBest urls url time

  All-keys :
      (m : Float) (scores : List (String × Float)) (urls : List String)
      → All (Scored t) scores
      → Least m (values scores)
      → All ((HasKey t) scores) urls
      → All (λ u. (w : Float) → get_server_score t u ≡ ok w → ltb_float w m ≡ false) urls
  All-keys m scores [] a l k = tt
  All-keys m scores (u ∷ urls) a l k =
      (λ w h. no_score_below m scores u w a l k.0 h, All-keys m scores urls a l k.1)

  unmeasured :
      (urls : List String) (least url : Option String) (time : Option Float)
      → (LeastScored t) least
      → Path (Result Exception (Option String × Option Float)) (ok (least, none)) (ok (url, time))
      → Found urls url time
  unmeasured urls least none time l h = tt
  unmeasured urls least (some u) time l h =
      let same : least ≡ some u = cc in
      let no_time : none ≡ time = cc in inl (sym no_time, subst (LeastScored t) same l)

  measured_Found :
      (pick : ℕ) (urls : List String) (scores : List (String × Float)) (url : Option String)
      (time : Option Float)
      → All (Scored t) scores
      → All ((HasKey t) scores) urls
      → (out : Result Exception (String × Float)) → least_busy pick scores ≡ out
      → map_ok with_some out ≡ ok (url, time)
      → Found urls url time
  measured_Found pick urls scores none time a k out e h = tt
  measured_Found pick urls scores (some u) time a k (raised x) e h = cc
  measured_Found pick urls scores (some u) time a k (ok (key, m)) e h =
      let same : key ≡ u = cc in
      let timed : some m ≡ time = cc in
      let (scored, least) = least_busy-HasScore t pick scores key m a e in
      inr (m, sym timed, subst ((HasScore t) m) same scored, All-keys m scores urls a least k)

  select_url-Found :
      (pick : ℕ) (urls : List String) (scores : List (String × Float)) (least url : Option String)
      (time : Option Float)
      → All (Scored t) scores
      → (LeastScored t) least
      → All ((HasKey t) scores) urls
      → select_url pick scores least ≡ ok (url, time)
      → Found urls url time
  unfolding select_url
  select_url-Found pick urls [] least url time a l k h = unmeasured urls least url time l h
  select_url-Found pick urls (e ∷ scores) least url time a l k h =
      elim (Bool-cases (is_truthy least)) [
        | inl never ↦ unmeasured urls least url time l (rw never at h)
        | inr measured ↦
            measured_Found pick urls (e ∷ scores) url time a k (least_busy pick (e ∷ scores)) refl
              (rw measured at h)
      ]

  find_server-IsBest :
      (servers : List VllmServer) (urls : List String) (url : Option String)
      (time score : Option Float) (s : VllmServer)
      → Found urls url time
      → find_server servers url time ≡ ok (s, score)
      → IsBest urls s.url score
  unfolding find_server
  find_server-IsBest [] urls url time score s f h = cc
  find_server-IsBest (x ∷ servers) urls url time score s f h =
      elim (Bool-cases (some x.url == url)) [
        | inl hit ↦
            let named : some x.url ≡ url = (option_beq_iff (some x.url) url).0 hit in
            let out : Path (Result Exception (VllmServer × Option Float)) (ok (x, time))
                (ok (s, score)) =
              rw hit at h in
            let server : x ≡ s = cc in
            let timed : time ≡ score = cc in
            let found : IsBest urls x.url time = subst (λ u. Found urls u time) (sym named) f in
            subst (λ y. IsBest urls y.url score) server (subst (IsBest urls x.url) timed found)
        | inr other ↦ find_server-IsBest servers urls url time score s f (rw other at h)
      ]

scored_server-IsBest :
    (t : MetricsTracker) (pick : ℕ) (servers : List VllmServer) (s : VllmServer)
    (score : Option Float) (out : Result Exception (List (String × Float) × Option String))
    → score_urls t t.urls [] none ≡ out
    → scored_server pick servers out ≡ ok (s, score)
    → IsBest t t.urls s.url score
scored_server-IsBest t pick servers s score (raised e) scored h = cc
scored_server-IsBest t pick servers s score (ok (scores, least)) scored h =
    let (a, l, found, kept) = score_urls_lem t t.urls [] none scores least tt tt scored in
    elim (Result-cases (select_url pick scores least)) [
      | inr (e, failed) ↦
          let bad : Path (Result Exception (VllmServer × Option Float)) (raised e) (ok (s, score)) =
            rw failed at h in
          cc
      | inl ((url, time), selected) ↦
          find_server-IsBest t servers t.urls url time score s
            (select_url-Found t pick t.urls scores least url time a l found selected)
            (rw selected at h)
    ]

-- The server that least-busy hands out either has the score -1 of a server without metrics, and comes without
-- a score, or it comes with its score, and no url that is monitored has a lower one.
pub choose_server-IsBest :
    (pick : ℕ) (b : LeastBusy) (s : VllmServer) (score : Option Float)
    → choose_server pick b ≡ ok (s, score)
    → IsBest b.tracker b.tracker.urls s.url score
unfolding choose_server
choose_server-IsBest pick b s score h =
    scored_server-IsBest b.tracker pick b.servers s score
      (score_urls b.tracker b.tracker.urls [] none) refl h
