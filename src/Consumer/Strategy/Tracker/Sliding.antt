-- ===== src/Consumer/Strategy/Tracker/Sliding.antt =====
-- The window of a server as a queue: what the server reported at the last rounds, the oldest first. The
-- slots with their index that goes round implement it.
use native.Mathlib.Nat.{mod-lt}
use aristote_dispatcher.Common.{
  ℕ, suc, ◌+◌, ◌%◌, ◌<◌, ◌≡◌, refl, sym, ap, ◌∙◌, Option, none, some, List, [], ◌∷◌, ◌++◌, arith,
  length, length-set, get_elem?, get_elem?_of_lt, set, drop, take,
}
use aristote_dispatcher.Common.Dict.{update}
use aristote_dispatcher.Common.Exec.{ok}
use aristote_dispatcher.Common.Float.{float_eq}
use aristote_dispatcher.Consumer.Strategy.Histogram.{Histogram, sub}
use aristote_dispatcher.Consumer.Strategy.Tracker.{
  Window, updated, update_slot, update_histogram, update_metrics, advance, map_ok, refresh,
}
use aristote_dispatcher.Consumer.Strategy.Tracker.Ring.{
  from_slot, from_slot_found, from_slot-set_next, set_found,
}

pub record Sliding : Type 0 where
  pub past : List Histogram
  pub diff : Histogram

abbrev pub queue : Histogram → List Histogram → Sliding
queue diff past = record { past = past; diff = diff }

abbrev pub slid : List Histogram → Histogram → Option Histogram → Sliding
slid [] diff content = record { past = []; diff = diff }
slid (oldest ∷ past) diff none = record { past = past ++ oldest ∷ []; diff = diff }
slid (oldest ∷ past) diff (some new) = record {
  past = past ++ update oldest new ∷ [];
  diff = update diff (sub new oldest);
}

-- A round compares what the server reports with the oldest entry, and takes that entry out and puts the
-- report in.
abbrev pub slide : Sliding → Option Histogram → Sliding
slide q content = slid q.past q.diff content

-- The queue that a window holds.
abbrev pub contents : Window → Sliding
contents w = record { past = from_slot w.index w.last; diff = w.diff }

pub record IsWindow (count : ℕ) (w : Window) : Type 0 where
  pub in_range : w.index < count
  pub full : length w.last ≡ count

-- Any slot may be written with what is known of it; the index goes on by one.
module _ (count : ℕ) (w : Window) (v : IsWindow count w) where
  advance-IsWindow :
      (new diff : Histogram)
      → IsWindow count
          (advance count (record { index = w.index; last = set w.last w.index new; diff = diff }))
  advance-IsWindow new diff = record {
    in_range = mod-lt (w.index + 1) (omega (arith, v.in_range));
    full = length-set w.last w.index new ∙ v.full;
  }

  advance_past :
      (new : Histogram)
      → from_slot ((w.index + 1) % count) (set w.last w.index new)
        ≡ (drop (suc w.index) w.last ++ take w.index w.last) ++ new ∷ []
  advance_past new = from_slot-set_next count w.last w.index new v.full v.in_range

  refresh_found :
      (new old : Histogram)
      → get_elem? w.last w.index ≡ some old
      → refresh count w (some new) ≡ ok (advance count (updated w new old))
  unfolding refresh update_metrics update_histogram
  refresh_found new old found = ap (λ o. map_ok (advance count) (update_slot w new o)) found

  -- A round that fetched what a server reports succeeds, keeps the window in order, and slides its queue.
  pub refresh-slide :
      (content : Option Histogram)
      → (w' : Window) × (refresh count w content ≡ ok w')
        × IsWindow count w'
        × (contents w' ≡ slide (contents w) content)
  unfolding refresh update_metrics update_histogram
  refresh-slide none =
      let (old, found) = get_elem?_of_lt w.last w.index (omega (arith, v.in_range, v.full)) in
      let past =
        ap (from_slot ((w.index + 1) % count)) (sym (set_found w.last w.index old found))
        ∙ advance_past old in
      (
        advance count w,
        refl,
        record { in_range = mod-lt (w.index + 1) (omega (arith, v.in_range)); full = v.full },
        ap (queue w.diff) past
            ∙ sym (ap (λ p. slid p w.diff none) (from_slot_found w.last w.index old found)),
      )
  refresh-slide (some new) =
      let (old, found) = get_elem?_of_lt w.last w.index (omega (arith, v.in_range, v.full)) in
      let diff = update w.diff (sub new old) in
      (
        advance count (updated w new old),
        refresh_found new old found,
        advance-IsWindow (update old new) diff,
        ap (queue diff) (advance_past (update old new))
            ∙ sym (ap (λ p. slid p w.diff (some new)) (from_slot_found w.last w.index old found)),
      )
