-- ===== src/Buckets.antt =====
-- backend/app/services/analytics.py: averages of the free spaces by hour, by weekday, and by the hours
-- of a weekday. An average is kept as a sum and a number of readings; the code divides and rounds them.
pub mod Exact
use kor_travel_transport.Prelude.{
  ℕ, zero, suc, ◌+◌, ◌≡◌, Bool, true, false, Option, none, some, List, [], ◌∷◌, map, ltb, ltb_ℤ,
  if◌then◌else◌, length, ℤ, pos, ◌+ℤ◌,
}
use kor_travel_transport.Prelude.Dict.{Dict, get, nat_eq}
use kor_travel_transport.Prelude.Sort.{sorted}
use kor_travel_transport.Clock.{Zone, utc, ensure_tz, astimezone, hour_of, date_of, weekday}
use kor_travel_transport.Analytics.{Snapshot}
use kor_travel_transport.Series.{grouped, or_empty}

-- `mean`, `min`, `max` and `len` of the readings; of none the code gives None
pub record Stats : Type 0 where
  pub sum_available_spaces : ℤ
  pub min_available_spaces : Option ℤ
  pub max_available_spaces : Option ℤ
  pub observations : ℕ

abbrev pub sum_ℤ : List ℤ → ℤ
sum_ℤ [] = pos 0
sum_ℤ (x ∷ xs) = x +ℤ sum_ℤ xs

abbrev pub lower : ℤ → Option ℤ → ℤ
lower x none = x
lower x (some y) = if ltb_ℤ y x then y else x

abbrev pub higher : ℤ → Option ℤ → ℤ
higher x none = x
higher x (some y) = if ltb_ℤ x y then y else x

abbrev pub lowest : List ℤ → Option ℤ
lowest [] = none
lowest (x ∷ xs) = some (lower x (lowest xs))

abbrev pub highest : List ℤ → Option ℤ
highest [] = none
highest (x ∷ xs) = some (higher x (highest xs))

abbrev pub stats_of : List ℤ → Stats
stats_of xs = record {
  sum_available_spaces = sum_ℤ xs;
  min_available_spaces = lowest xs;
  max_available_spaces = highest xs;
  observations = length xs;
}

pub record Bucket : Type 0 where
  pub key : ℕ
  pub stats : Stats

-- `ensure_tz(snapshot.observed_at, "UTC").astimezone(tz)`
abbrev pub local_wall : Zone → Snapshot → ℕ
local_wall z s = (astimezone (ensure_tz s.observed_at utc) z).wall

abbrev pub local_hour : Zone → Snapshot → ℕ
local_hour z s = hour_of (local_wall z s)

abbrev pub local_weekday : Zone → Snapshot → ℕ
local_weekday z s = weekday (date_of (local_wall z s))

abbrev pub key_before {ℓ} : {A : Type ℓ} → ℕ × A → ℕ × A → Bool
key_before a b = ltb a.0 b.0

abbrev pub bucket_of : ℕ × List ℤ → Bucket
bucket_of group = record { key = group.0; stats = stats_of group.1 }

-- the loop over `sorted(groups)`
pub build_buckets : (Snapshot → ℕ) → List Snapshot → List Bucket
unfolding grouped
build_buckets key snapshots =
    map bucket_of
      (sorted key_before (grouped key (λ (s : Snapshot). s.available_spaces) [] snapshots))

unfoldable build_hourly_buckets : List Snapshot → Zone → List Bucket
unfolding build_buckets
build_hourly_buckets snapshots z = build_buckets (local_hour z) snapshots

unfoldable build_weekday_buckets : List Snapshot → Zone → List Bucket
unfolding build_buckets
build_weekday_buckets snapshots z = build_buckets (local_weekday z) snapshots

pub record WeekdayPattern : Type 0 where
  pub weekday_bucket : Bucket
  pub hourly_buckets : List Bucket

-- `hour_groups[weekday].get(hour, [])` for each hour of the day
hours_from : ℕ → ℕ → Dict ℕ (List ℤ) → List Bucket
hours_from zero hour groups = []
hours_from (suc count) hour groups =
    bucket_of (hour, or_empty (get groups hour)) ∷ hours_from count (suc hour) groups

-- the readings with their hours, grouped by the weekday and then by the hour
pattern_of : ℕ × List (ℕ × ℤ) → WeekdayPattern
unfolding grouped hours_from
pattern_of group = record {
  weekday_bucket = bucket_of (group.0, map (λ (r : ℕ × ℤ). r.1) group.1);
  hourly_buckets = hours_from 24 0 (grouped (λ (r : ℕ × ℤ). r.0) (λ (r : ℕ × ℤ). r.1) [] group.1);
}

unfoldable build_weekday_hour_patterns : List Snapshot → Zone → List WeekdayPattern
unfolding grouped pattern_of
build_weekday_hour_patterns snapshots z = map pattern_of (
    sorted key_before (
      grouped (local_weekday z) (λ (s : Snapshot). (local_hour z s, s.available_spaces)) []
        snapshots))
