-- ===== src/SpecialDays.antt =====
-- backend/app/services/analytics.py, `build_special_day_patterns` and `build_holiday_patterns`: the free
-- spaces of all lots together on holidays and other special days, by the hour.
pub mod Totals
use kor_travel_transport.Prelude.{
  ℕ, zero, suc, ◌+◌, Bool, true, false, Option, none, some, List, [], ◌∷◌, ◌++◌, map, ltb, ◌==◌,
  ◌&&◌, if◌then◌else◌, keep, ℤ, pos, ◌+ℤ◌, String,
}
use kor_travel_transport.Prelude.Dict.{Dict, get, put, values, nat_eq}
use kor_travel_transport.Prelude.Sort.{sorted}
use kor_travel_transport.Clock.{Zone, date_of, weekday}
use kor_travel_transport.Analytics.{Snapshot}
use kor_travel_transport.Series.{observed}
use kor_travel_transport.Buckets.{Stats, Bucket, stats_of, local_wall, local_hour}

pub record SpecialDay : Type 0 where
  pub local_date : ℕ
  pub name : String
  pub day_type : String

abbrev pub or_zero : Option ℤ → ℤ
or_zero none = pos 0
or_zero (some x) = x

-- `hourly_totals[date][hour][observed_at] += available_spaces`, for the rows of one date and hour
pub add_totals : Dict ℕ ℤ → List Snapshot → Dict ℕ ℤ
add_totals totals [] = totals
add_totals totals (s ∷ ss) =
    add_totals (put totals (observed s) (or_zero (get totals (observed s)) +ℤ s.available_spaces))
      ss

abbrev pub is_at : Zone → ℕ → ℕ → Snapshot → Bool
is_at z date hour s = date_of (local_wall z s) == date && local_hour z s == hour

-- the totals of an hour of a day, one for each time of observation
hour_values : Zone → List Snapshot → ℕ → ℕ → List ℤ
unfolding add_totals
hour_values z snapshots date hour = values (add_totals [] (keep (is_at z date hour) snapshots))

pub record DayPattern : Type 0 where
  pub local_date : ℕ
  pub name : String
  pub day_type : String
  pub weekday_number : ℕ
  pub stats : Stats
  pub hourly_buckets : List Bucket

day_buckets : Zone → List Snapshot → ℕ → ℕ → ℕ → List Bucket
unfolding hour_values
day_buckets z snapshots date zero hour = []
day_buckets z snapshots date (suc count) hour =
    record { key = hour; stats = stats_of (hour_values z snapshots date hour) }
    ∷ day_buckets z snapshots date count (suc hour)

day_values : Zone → List Snapshot → ℕ → ℕ → ℕ → List ℤ
unfolding hour_values
day_values z snapshots date zero hour = []
day_values z snapshots date (suc count) hour =
    hour_values z snapshots date hour ++ day_values z snapshots date count (suc hour)

-- `special_day_types.get(local_date, day_type)`: the type of the last entry of the date
type_of : ℕ → String → List SpecialDay → String
type_of date found [] = found
type_of date found (d ∷ ds) = type_of date (if d.local_date == date then d.day_type else found) ds

day_pattern : Zone → List Snapshot → List SpecialDay → SpecialDay → DayPattern
unfolding day_buckets day_values type_of
day_pattern z snapshots days d = record {
  local_date = d.local_date;
  name = d.name;
  day_type = type_of d.local_date d.day_type days;
  weekday_number = weekday d.local_date;
  stats = stats_of (day_values z snapshots d.local_date 24 0);
  hourly_buckets = day_buckets z snapshots d.local_date 24 0;
}

abbrev pub later_day : SpecialDay → SpecialDay → Bool
later_day a b = ltb b.local_date a.local_date

build_special_day_patterns : List Snapshot → List SpecialDay → Zone → List DayPattern
unfolding day_pattern
build_special_day_patterns snapshots special_days z =
    map (day_pattern z snapshots special_days) (sorted later_day special_days)

abbrev pub holiday_of : ℕ × String → SpecialDay
holiday_of h = record { local_date = h.0; name = h.1; day_type = "holiday" }

unfoldable build_holiday_patterns : List Snapshot → List (ℕ × String) → Zone → List DayPattern
unfolding build_special_day_patterns
build_holiday_patterns snapshots holidays z =
    build_special_day_patterns snapshots (map holiday_of holidays) z
