-- ===== src/Examples/RailExamples.antt =====
-- A timetable with two trains, and the totals of two lots.
use kor_travel_transport.Prelude.{false, none, some, List, [], ◌∷◌, pos}
use kor_travel_transport.Prelude.Dict.{nat_eq}
use kor_travel_transport.Prelude.Chars.{Text}
use kor_travel_transport.Clock.{naive, minute_us}
use kor_travel_transport.Analytics.{Snapshot}
use kor_travel_transport.RailTimetable.{Train, upcoming, head_of}
use kor_travel_transport.RailTimetable.Upcoming.{NextOf, upcoming-NextOf}

-- at 10:00:00 and 09:30:00
abbrev ten : Train
ten = record {
  train_number = none;
  departure_time = some (49 ∷ 48 ∷ 48 ∷ 48 ∷ 48 ∷ 48 ∷ []);
  arrival_time = none;
  origin_station_code = [];
  terminal_station_code = [];
}

abbrev half_past_nine : Train
half_past_nine = record ten { departure_time = some (48 ∷ 57 ∷ 51 ∷ 48 ∷ 48 ∷ 48 ∷ []) }

-- 09:00:00
abbrev nine : Text
nine = 48 ∷ 57 ∷ 48 ∷ 48 ∷ 48 ∷ 48 ∷ []

upcoming-NextOf_example :
    NextOf nine (ten ∷ half_past_nine ∷ []) (head_of (upcoming nine (ten ∷ half_past_nine ∷ [])))
upcoming-NextOf_example = upcoming-NextOf nine (ten ∷ half_past_nine ∷ [])

abbrev one_lot : Snapshot
one_lot = record {
  id = 1;
  parking_lot_id = 1;
  is_migration = false;
  observed_at = naive minute_us;
  collected_at = naive minute_us;
  available_spaces = pos 7;
  occupied_spaces = pos 3;
  total_spaces = pos 10;
}

abbrev two_lots : List Snapshot
two_lots = one_lot ∷ record one_lot { id = 2; parking_lot_id = 2; available_spaces = pos 5 } ∷ []
