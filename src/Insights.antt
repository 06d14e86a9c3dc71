-- ===== src/Insights.antt =====
-- backend/app/services/analytics.py, `build_threshold_insights`: the first fall below each threshold on each
-- local day, and the usual minute of it by weekday.
pub mod First
use kor_travel_transport.Prelude.{
  ℕ, zero, suc, ◌+◌, ◌-◌, ◌*◌, ◌/◌, ◌%◌, ◌≡◌, ◌↔◌, refl, ap, arith, Bool, true, false, Option, none,
  some, List, [], ◌∷◌, ◌++◌, map, keep, ltb, ◌==◌, ◌&&◌, if◌then◌else◌, length, take, ℤ, pos,
  negsuc,
}
use kor_travel_transport.Prelude.Dict.{Eq, Dict, get, put}
use kor_travel_transport.Prelude.Sort.{sorted}
use kor_travel_transport.Clock.{Zone, utc, astimezone, date_of, hour_of, minute_of, weekday}
use kor_travel_transport.Thresholds.{
  Direction, down, up, Reading, Crossing, detect_threshold_events_from_time_series,
}
use kor_travel_transport.Series.{or_empty, append_to}

abbrev pub ℤ_same : ℤ → ℤ → Bool
ℤ_same (pos a) (pos b) = a == b
ℤ_same (negsuc a) (negsuc b) = a == b
ℤ_same _ _ = false

ℤ_same_iff : (a b : ℤ) → (ℤ_same a b ≡ true) ↔ (a ≡ b)
ℤ_same_iff (pos a) (pos b) = ground arith
ℤ_same_iff (negsuc a) (negsuc b) = ground arith
ℤ_same_iff (pos a) (negsuc b) = ground arith
ℤ_same_iff (negsuc a) (pos b) = ground arith

-- a threshold with a local date, or with a weekday
abbrev pub Slot : Type 0
Slot = ℤ × ℕ

abbrev pub slot_beq : Slot → Slot → Bool
slot_beq a b = ℤ_same a.0 b.0 && a.1 == b.1

pub slot_beq_iff : (a b : Slot) → (slot_beq a b ≡ true) ↔ (a ≡ b)
slot_beq_iff a b = ground (arith, ℤ_same_iff a.0 b.0)

instance abbrev pub slot_eq : Eq Slot
slot_eq = record { beq = slot_beq; beq_iff = slot_beq_iff }

abbrev pub is_down : Crossing → Bool
is_down c = elim c.direction [ down ↦ true | up ↦ false ]

-- `crossed_at.astimezone(tz)`
abbrev pub local_wall : Zone → Crossing → ℕ
local_wall z c = (astimezone (record { zone = utc; wall = c.crossed_at }) z).wall

abbrev pub slot_of : Zone → Crossing → Slot
slot_of z c = (c.threshold, date_of (local_wall z c))

abbrev pub set_default : Dict Slot Crossing → Slot → Crossing → Option Crossing → Dict Slot Crossing
set_default d k c none = put d k c
set_default d k c (some old) = d

-- the loop with `setdefault`
pub first_crossings : Zone → Dict Slot Crossing → List Crossing → Dict Slot Crossing
first_crossings z d [] = d
first_crossings z d (c ∷ cs) =
    first_crossings z (set_default d (slot_of z c) c (get d (slot_of z c))) cs

abbrev pub minutes_of_day : ℕ → ℕ
minutes_of_day wall = hour_of wall * 60 + minute_of wall

pub record HistoryItem : Type 0 where
  pub threshold : ℤ
  pub local_date : ℕ
  pub weekday_number : ℕ
  pub crossed_at : ℕ
  pub minute : ℕ
  pub available_spaces : ℤ

abbrev pub history_item : Zone → Slot × Crossing → HistoryItem
history_item z entry = record {
  threshold = entry.0.0;
  local_date = entry.0.1;
  weekday_number = weekday (date_of (local_wall z entry.1));
  crossed_at = entry.1.crossed_at;
  minute = minutes_of_day (local_wall z entry.1);
  available_spaces = entry.1.current_available_spaces;
}

weekday_groups : Dict Slot (List ℕ) → List HistoryItem → Dict Slot (List ℕ)
weekday_groups groups [] = groups
weekday_groups groups (h ∷ hs) =
    weekday_groups (append_to groups (h.threshold, h.weekday_number) h.minute) hs

-- `round` of a half of a number: to the even one of two neighbours
abbrev pub round_half : ℕ → ℕ
round_half twice =
    if twice % 2 == 0 then twice / 2 else if twice / 2 % 2 == 0 then twice / 2 else twice / 2 + 1

abbrev pub item_at : ℕ → List ℕ → ℕ
item_at i [] = 0
item_at zero (x ∷ xs) = x
item_at (suc i) (x ∷ xs) = item_at i xs

-- `round(median(values)) if values else None`
pub rounded_median : List ℕ → Option ℕ
rounded_median [] = none
rounded_median (x ∷ xs) =
    let ordered = sorted ltb (x ∷ xs) in
    let n = length ordered in
    some (
      if n % 2 == 1
      then item_at (n / 2) ordered
      else round_half (item_at (n / 2 - 1) ordered + item_at (n / 2) ordered))

pub record WeekdayItem : Type 0 where
  pub threshold : ℤ
  pub weekday_number : ℕ
  pub typical_minutes_of_day : Option ℕ
  pub sample_count : ℕ

abbrev pub weekday_item : Dict Slot (List ℕ) → ℤ → ℕ → WeekdayItem
weekday_item groups threshold day =
    let minutes = or_empty (get groups (threshold, day)) in
    record {
      threshold = threshold;
      weekday_number = day;
      typical_minutes_of_day = rounded_median minutes;
      sample_count = length minutes;
    }

-- the loops over the thresholds and the seven weekdays
weekday_items : Dict Slot (List ℕ) → List ℤ → List WeekdayItem
unfolding rounded_median
weekday_items groups [] = []
weekday_items groups (t ∷ ts) =
    map (weekday_item groups t) (0 ∷ 1 ∷ 2 ∷ 3 ∷ 4 ∷ 5 ∷ 6 ∷ []) ++ weekday_items groups ts

abbrev pub crossed_before : Crossing → Crossing → Bool
crossed_before a b = ltb a.crossed_at b.crossed_at

abbrev pub newer : HistoryItem → HistoryItem → Bool
newer a b = ltb b.crossed_at a.crossed_at

-- the weekday items, and the history, the newest first
unfoldable build_threshold_insights :
    List Reading → List ℤ → Zone → ℕ → List WeekdayItem × List HistoryItem
unfolding first_crossings weekday_groups weekday_items detect_threshold_events_from_time_series
build_threshold_insights points thresholds z history_limit =
    let down_events = keep is_down (detect_threshold_events_from_time_series points thresholds) in
    let history = map (history_item z) (first_crossings z [] (sorted crossed_before down_events)) in
    (
      weekday_items (weekday_groups [] history) thresholds,
      take history_limit (sorted newer history),
    )
