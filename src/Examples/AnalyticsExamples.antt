-- ===== src/Examples/AnalyticsExamples.antt =====
-- Snapshots of one lot from two sources, and a series that falls and climbs back.
use kor_travel_transport.Prelude.{
  ℕ, ◌+◌, ◌≡◌, ◌*◌, refl, Bool, true, false, Option, some, List, [], ◌∷◌, ℤ, pos, keep, ◌==◌,
}
use kor_travel_transport.Prelude.Dict.{Eq}
use kor_travel_transport.Prelude.Sort.{sorted}
use kor_travel_transport.Clock.{DateTime, naive, minute_us}
use kor_travel_transport.Analytics.{Snapshot, deduplicate_by}
use kor_travel_transport.Analytics.Dedupe.{IsDeduplicated, deduplicate_by_best}
use kor_travel_transport.Thresholds.{
  Reading, LotReading, LotCrossing, at_lot, scan_lots, events_of,
  detect_threshold_events_from_time_series,
}
use kor_travel_transport.Thresholds.Alternate.{
  replay, is_above, last_of, detect_threshold_events_from_time_series_alternate,
}
use kor_travel_transport.Thresholds.Lots.{readings_of, scan_lots_separate}

abbrev live_row : Snapshot
live_row = record {
  id = 3;
  parking_lot_id = 1;
  is_migration = false;
  observed_at = naive minute_us;
  collected_at = naive (2 * minute_us);
  available_spaces = pos 20;
  occupied_spaces = pos 80;
  total_spaces = pos 100;
}

abbrev migrated_row : Snapshot
migrated_row = record live_row { id = 2; is_migration = true }

deduplicate_by_best_example :
    IsDeduplicated
      (λ (s : Snapshot). s)
      (migrated_row ∷ live_row ∷ [])
      (deduplicate_by (λ (s : Snapshot). s) (migrated_row ∷ live_row ∷ []))
deduplicate_by_best_example =
    deduplicate_by_best (λ (s : Snapshot). s) (migrated_row ∷ live_row ∷ [])

live_row_stays : deduplicate_by (λ (s : Snapshot). s) (migrated_row ∷ live_row ∷ []) ≡ live_row ∷ []
unfolding deduplicate_by sorted kor_travel_transport.Prelude.Dict.get
    kor_travel_transport.Prelude.Dict.put kor_travel_transport.Clock.ensure_tz
    kor_travel_transport.Analytics.is_preferred
live_row_stays = refl

abbrev at_noon : Reading
at_noon = record { at = 12; available_spaces = pos 60 }

abbrev at_one : Reading
at_one = record { at = 13; available_spaces = pos 9 }

abbrev at_two : Reading
at_two = record { at = 14; available_spaces = pos 50 }

detect_threshold_events_from_time_series_alternate_example :
    replay (pos 50) (is_above (pos 50) at_noon) (
      detect_threshold_events_from_time_series
        (at_two ∷ at_noon ∷ at_one ∷ [])
        (pos 10 ∷ pos 50 ∷ []))
    ≡ some (is_above (pos 50) (last_of at_noon (at_one ∷ at_two ∷ [])))
detect_threshold_events_from_time_series_alternate_example =
    detect_threshold_events_from_time_series_alternate (at_two ∷ at_noon ∷ at_one ∷ [])
      (pos 10 ∷ pos 50 ∷ []) (pos 50) refl at_noon (at_one ∷ at_two ∷ []) (unfold sorted in refl)

abbrev two_lots : List LotReading
two_lots =
    record { lot_id = 1; reading = at_noon }
    ∷ record { lot_id = 2; reading = at_one }
    ∷ record { lot_id = 1; reading = at_one }
    ∷ []

scan_lots_separate_example :
    keep (λ (e : LotCrossing). e.parking_lot_id == 1) (scan_lots (pos 10 ∷ []) [] two_lots)
    ≡ at_lot 1 (events_of (pos 10 ∷ []) (readings_of 1 two_lots))
scan_lots_separate_example = scan_lots_separate (pos 10 ∷ []) 1 two_lots
