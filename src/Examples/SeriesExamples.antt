-- ===== src/Examples/SeriesExamples.antt =====
-- A lot with two readings, and its hours.
use kor_travel_transport.Prelude.{◌≡◌, refl, false, none, List, [], ◌∷◌, map, pos, arith, ◌*◌}
use kor_travel_transport.Clock.{naive, minute_us, seoul}
use kor_travel_transport.Analytics.{Snapshot}
use kor_travel_transport.Series.{SeriesItem, empty_item, fill_lot}
use kor_travel_transport.Series.Reference.{fill_alone, fill_lot-alone}
use kor_travel_transport.Buckets.{local_hour, build_buckets}
use kor_travel_transport.Buckets.Exact.{IsBucketing, build_buckets-IsBucketing}

abbrev first_reading : Snapshot
first_reading = record {
  id = 1;
  parking_lot_id = 1;
  is_migration = false;
  observed_at = naive (20 * minute_us);
  collected_at = naive (20 * minute_us);
  available_spaces = pos 7;
  occupied_spaces = pos 3;
  total_spaces = pos 10;
}

abbrev second_reading : Snapshot
second_reading = record first_reading {
  id = 2;
  observed_at = naive (30 * minute_us);
  available_spaces = pos 5;
  occupied_spaces = pos 5;
}

abbrev two_buckets : List SeriesItem
two_buckets = empty_item (25 * minute_us) ∷ empty_item (35 * minute_us) ∷ []

fill_lot-alone_example :
    fill_lot
      (35 * minute_us)
      (10 * minute_us)
      none
      (first_reading ∷ second_reading ∷ [])
      two_buckets
    ≡ map
        (fill_alone (35 * minute_us) (10 * minute_us) (first_reading ∷ second_reading ∷ []))
        two_buckets
fill_lot-alone_example =
    fill_lot-alone (35 * minute_us) (10 * minute_us) (first_reading ∷ second_reading ∷ [])
      two_buckets (unfold kor_travel_transport.Clock.ensure_tz in refl, tt)
      (omega arith, (omega arith, tt))

build_buckets-IsBucketing_example :
    IsBucketing
      (local_hour seoul)
      (first_reading ∷ second_reading ∷ [])
      (build_buckets (local_hour seoul) (first_reading ∷ second_reading ∷ []))
build_buckets-IsBucketing_example =
    build_buckets-IsBucketing (local_hour seoul) (first_reading ∷ second_reading ∷ [])
