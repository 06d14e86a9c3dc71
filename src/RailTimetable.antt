-- ===== src/RailTimetable.antt =====
-- backend/app/services/rail_timetable.py: the stored timetables of stations. The rows of the database are
-- arguments. Times are in microseconds; the clock of a departure is a text of six digits.
pub mod Upcoming
use kor_travel_transport.Prelude.{
  ℕ, zero, suc, ◌+◌, ◌-◌, ◌*◌, ◌/◌, ◌%◌, Bool, true, false, not, Option, none, some, List, [], ◌∷◌,
  ◌++◌, map, keep, all, take, length, ltb, leb, ◌==◌, ◌&&◌, ◌||◌, if◌then◌else◌,
}
use kor_travel_transport.Prelude.Dict.{Dict, get, put, nat_eq}
use kor_travel_transport.Prelude.Chars.{Text, text_beq, text_ltb}
use kor_travel_transport.Prelude.Sort.{sorted}
use kor_travel_transport.Clock.{
  DateTime, seoul, to_seoul, hour_us, minute_us, second_us, hour_of, minute_of, instant, Aware,
}
use kor_travel_transport.Holidays.{is_digit}

-- a row of `items_json`
pub record Train : Type 0 where
  pub train_number : Option Text
  pub departure_time : Option Text
  pub arrival_time : Option Text
  pub origin_station_code : Text
  pub terminal_station_code : Text

pub record StationCode : Type 0 where
  pub id : ℕ
  pub rail_station_id : Option ℕ
  pub operator_code : Text
  pub line_code : Text
  pub station_code : Text
  pub station_name : Text

pub record StoredTimetable : Type 0 where
  pub station_id : ℕ
  pub collected_at : ℕ
  pub items : List Train

pub record ServiceDay : Type 0 where
  pub day_code : Text
  pub verified_at : ℕ

pub data Basis : Type 0 where
  selected_period overnight_unresolved calendar_unavailable calendar : Basis

abbrev pub stale_after : ℕ
stale_after = 48 * hour_us

-- the day code and its basis; `today` is the calendar's row of the local date
resolve_day : ℕ → ℕ → Option ServiceDay → Option Text → Basis × Option Text
resolve_day now local_hour today (some code) = (selected_period, some code)
resolve_day now local_hour none none =
    if ltb local_hour 5 then (overnight_unresolved, none) else (calendar_unavailable, none)
resolve_day now local_hour (some day) none =
    if ltb local_hour 5
    then (overnight_unresolved, none)
    else if ltb stale_after (now - day.verified_at)
    then (calendar_unavailable, none)
    else (calendar, some day.day_code)

-- `{row.rail_station_id: row for row in codes if row.rail_station_id is not None}`
linked_codes : Dict ℕ StationCode → List StationCode → Dict ℕ StationCode
linked_codes d [] = d
linked_codes d (c ∷ cs) =
    linked_codes (elim c.rail_station_id [ none ↦ d | some place ↦ put d place c ]) cs

-- the name in the dict of the codes of the same operator and line: the last that was put
name_of : StationCode → Text → Option Text → List StationCode → Option Text
name_of at code found [] = found
name_of at code found (c ∷ cs) =
    name_of at code
      (if text_beq c.operator_code at.operator_code
          && (text_beq c.line_code at.line_code && text_beq c.station_code code)
        then some c.station_name
        else found)
      cs

pub record Departure : Type 0 where
  pub train_number : Option Text
  pub departure_time : Option Text
  pub arrival_time : Option Text
  pub origin_name : Option Text
  pub destination_name : Option Text

departure_of : List StationCode → StationCode → Train → Departure
unfolding name_of
departure_of codes at row = record {
  train_number = row.train_number;
  departure_time = row.departure_time;
  arrival_time = row.arrival_time;
  origin_name = name_of at row.origin_station_code none codes;
  destination_name = name_of at row.terminal_station_code none codes;
}

abbrev pub two_digits : ℕ → Text
two_digits n = (48 + n / 10 % 10) ∷ (48 + n % 10) ∷ []

-- `local.strftime("%H%M%S")`
abbrev pub clock_text : ℕ → Text
clock_text wall =
    two_digits (hour_of wall) ++ (two_digits (minute_of wall) ++ two_digits (wall / second_us % 60))

abbrev pub text_leb : Text → Text → Bool
text_leb a b = not (text_ltb b a)

-- The texts that count as a time of the same day: six digits from 05 to 23 o'clock.
abbrev pub is_day_time : Text → Bool
is_day_time (a ∷ b ∷ c ∷ d ∷ e ∷ f ∷ []) =
    all is_digit (a ∷ b ∷ c ∷ d ∷ e ∷ f ∷ [])
    && (text_leb (48 ∷ 53 ∷ []) (a ∷ b ∷ [])
        && (text_leb (a ∷ b ∷ []) (50 ∷ 51 ∷ [])
            && (text_ltb (c ∷ d ∷ []) (54 ∷ 48 ∷ []) && text_ltb (e ∷ f ∷ []) (54 ∷ 48 ∷ []))))
is_day_time _ = false

abbrev pub is_upcoming : Text → Train → Bool
is_upcoming clock row = elim row.departure_time [
  | none ↦ false
  | some t ↦ is_day_time t && text_leb clock t
]

abbrev pub time_or : Text → Option Text → Text
time_or other none = other
time_or other (some t) = t

abbrev pub leaves_before : Train → Train → Bool
leaves_before a b = text_ltb (time_or [] a.departure_time) (time_or [] b.departure_time)

pub upcoming : Text → List Train → List Train
upcoming clock rows = sorted leaves_before (keep (is_upcoming clock) rows)

-- "999999"
abbrev pub last_time : Text
last_time = 57 ∷ 57 ∷ 57 ∷ 57 ∷ 57 ∷ 57 ∷ []

abbrev pub nonempty : Option Text → Option Text
nonempty none = none
nonempty (some []) = none
nonempty (some (c ∷ cs)) = some (c ∷ cs)

abbrev pub listed_before : Departure → Departure → Bool
listed_before a b =
    text_ltb (time_or last_time (nonempty a.departure_time))
      (time_or last_time (nonempty b.departure_time))

pub data ItemStatus : Type 0 where
  unlinked day_unresolved stored not_collected : ItemStatus

pub record TimetableItem : Type 0 where
  pub place_id : ℕ
  pub status : ItemStatus
  pub collected_at : Option ℕ
  pub stale : Bool
  pub departure_count : ℕ
  pub items : List Departure
  pub next_departure : Option Departure
  pub upcoming_departures : List Departure

abbrev pub bare : ℕ → ItemStatus → TimetableItem
bare place status = record {
  place_id = place;
  status = status;
  collected_at = none;
  stale = false;
  departure_count = 0;
  items = [];
  next_departure = none;
  upcoming_departures = [];
}

abbrev pub head_of {ℓ} : {A : Type ℓ} → List A → Option A
head_of [] = none
head_of (x ∷ xs) = some x

abbrev pub is_calendar : Basis → Bool
is_calendar calendar = true
is_calendar _ = false

-- the item of a place with its code and its timetable
stored_item :
    ℕ → Text → Basis → Bool → List StationCode → ℕ → StationCode → StoredTimetable → TimetableItem
unfolding departure_of upcoming
stored_item now clock basis summary_only codes place code t =
    let stale = ltb stale_after (now - t.collected_at) in
    let next = if is_calendar basis && not stale then upcoming clock t.items else [] in
    record {
      place_id = place;
      status = stored;
      collected_at = some t.collected_at;
      stale = stale;
      departure_count = length t.items;
      items =
          if summary_only then [] else sorted listed_before (map (departure_of codes code) t.items);
      next_departure = head_of (map (departure_of codes code) (take 1 next));
      upcoming_departures =
          if summary_only then [] else map (departure_of codes code) (take 12 next);
    }

-- the item of a place; `timetable` is the database's row of a station for the resolved day
place_item :
    ℕ
    → Text
    → Basis × Option Text
    → Bool
    → List StationCode
    → (Text → ℕ → Option StoredTimetable)
    → ℕ
    → Option StationCode
    → TimetableItem
unfolding stored_item
place_item now clock day summary_only codes timetable place none = bare place unlinked
place_item now clock (basis, none) summary_only codes timetable place (some code) =
    bare place day_unresolved
place_item now clock (basis, some day_code) summary_only codes timetable place (some code) =
    elim (timetable day_code code.id) [
      | none ↦ bare place not_collected
      | some t ↦ stored_item now clock basis summary_only codes place code t
    ]

-- `now` is an instant
unfoldable stored_rail_timetables :
    ℕ
    → Option ServiceDay
    → List StationCode
    → (Text → ℕ → Option StoredTimetable)
    → List ℕ
    → Option Text
    → Bool
    → List TimetableItem
unfolding resolve_day linked_codes place_item
stored_rail_timetables now today codes timetable places day_code summary_only =
    let wall =
      (kor_travel_transport.Clock.astimezone
        (record { zone = kor_travel_transport.Clock.utc; wall = now }) seoul).wall in
    let day = resolve_day now (hour_of wall) today day_code in
    map
      (λ place.
        place_item now (clock_text wall) day summary_only codes timetable place
          (get (linked_codes [] codes) place))
      places
