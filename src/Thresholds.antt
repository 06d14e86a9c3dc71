-- ===== src/Thresholds.antt =====
-- backend/app/services/analytics.py, `detect_threshold_events` and
-- `detect_threshold_events_from_time_series`: the moments at which the free spaces fall below a
-- threshold or climb back to it.
pub mod Alternate
pub mod Lots
use kor_travel_transport.Prelude.{
  ℕ, zero, suc, ◌+◌, ◌<◌, ◌≡◌, arith, Bool, true, false, ◌&&◌, Option, none, some, List, [], ◌∷◌,
  ◌++◌, ltb, ◌==◌, ◌||◌, if◌then◌else◌, length, ℤ, ltb_ℤ, leb_ℤ, take,
}
use kor_travel_transport.Prelude.Dict.{Eq, Dict, get, put, nat_eq}
use kor_travel_transport.Prelude.Sort.{sorted}

pub data Direction : Type 0 where
  down up : Direction

-- the free spaces at a time, an instant in UTC: a point of a time series, and what the events read
-- of a snapshot
pub record Reading : Type 0 where
  pub at : ℕ
  pub available_spaces : ℤ

pub record Crossing : Type 0 where
  pub threshold : ℤ
  pub direction : Direction
  pub crossed_at : ℕ
  pub previous_available_spaces : ℤ
  pub current_available_spaces : ℤ

-- the body of the loop on `thresholds`: the two tests, in the source's order
pub crossings_of : Reading → Reading → ℤ → List Crossing
crossings_of previous point threshold =
    let fell =
      leb_ℤ threshold previous.available_spaces && ltb_ℤ point.available_spaces threshold in
    let rose =
      ltb_ℤ previous.available_spaces threshold && leb_ℤ threshold point.available_spaces in
    (if fell then crossing down ∷ [] else []) ++ (if rose then crossing up ∷ [] else [])
  where
    crossing : Direction → Crossing
    crossing d = record {
      threshold = threshold;
      direction = d;
      crossed_at = point.at;
      previous_available_spaces = previous.available_spaces;
      current_available_spaces = point.available_spaces;
    }

pub crossings_between : Reading → Reading → List ℤ → List Crossing
unfolding crossings_of
crossings_between previous point [] = []
crossings_between previous point (threshold ∷ thresholds) =
    crossings_of previous point threshold ++ crossings_between previous point thresholds

-- the loop on `ordered[1:]`
pub scan_points : List ℤ → Reading → List Reading → List Crossing
unfolding crossings_between
scan_points thresholds previous [] = []
scan_points thresholds previous (point ∷ points) =
    crossings_between previous point thresholds ++ scan_points thresholds point points

pub events_of : List ℤ → List Reading → List Crossing
unfolding scan_points
events_of thresholds [] = []
events_of thresholds (first ∷ points) = scan_points thresholds first points

abbrev pub earlier : Reading → Reading → Bool
earlier a b = ltb a.at b.at

unfoldable pub detect_threshold_events_from_time_series : List Reading → List ℤ → List Crossing
unfolding events_of
detect_threshold_events_from_time_series points thresholds =
    events_of thresholds (sorted earlier points)

-- a row of the snapshot query: its lot and airport as the event carries them
pub record LotReading : Type 0 where
  pub lot_id : ℕ
  pub reading : Reading

pub record LotCrossing : Type 0 where
  pub parking_lot_id : ℕ
  pub crossing : Crossing

abbrev pub lot_earlier : LotReading → LotReading → Bool
lot_earlier a b = ltb a.lot_id b.lot_id || (a.lot_id == b.lot_id && ltb a.reading.at b.reading.at)

abbrev pub at_lot : ℕ → List Crossing → List LotCrossing
at_lot lot [] = []
at_lot lot (c ∷ cs) = record { parking_lot_id = lot; crossing = c } ∷ at_lot lot cs

-- the events of one row, given what `previous_by_lot` holds for its lot
pub events_after : List ℤ → LotReading → Option Reading → List LotCrossing
unfolding crossings_between
events_after thresholds row none = []
events_after thresholds row (some previous) =
    at_lot row.lot_id (crossings_between previous row.reading thresholds)

-- the loop, with `previous_by_lot`
pub scan_lots : List ℤ → Dict ℕ Reading → List LotReading → List LotCrossing
unfolding events_after
scan_lots thresholds previous_by_lot [] = []
scan_lots thresholds previous_by_lot (row ∷ rows) =
    events_after thresholds row (get previous_by_lot row.lot_id)
    ++ scan_lots thresholds (put previous_by_lot row.lot_id row.reading) rows

-- `sorted(events, key=crossed_at, reverse=True)` keeps equals in their order
abbrev pub later_event : LotCrossing → LotCrossing → Bool
later_event a b = ltb b.crossing.crossed_at a.crossing.crossed_at

unfoldable detect_threshold_events : List LotReading → List ℤ → ℕ → List LotCrossing
unfolding scan_lots
detect_threshold_events rows thresholds limit =
    take limit (sorted later_event (scan_lots thresholds [] (sorted lot_earlier rows)))
