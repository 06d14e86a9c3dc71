-- ===== src/Examples/ClockExamples.antt =====
-- The time helpers at concrete times.
use kor_travel_transport.Prelude.{◌+◌, ◌*◌, ◌≡◌, refl, some, List, pos, arith}
use kor_travel_transport.Clock.{
  Aware, DateTime, naive, utc, seoul, hour_us, minute_us, day_us, astimezone, align_to_interval,
  split_by_local_day,
}
use kor_travel_transport.Clock.Align.{IsSlotOf, align_to_interval_slot}
use kor_travel_transport.Clock.Days.{Tiles, split_by_local_day-Tiles}

-- noon and 37 minutes, on the tenth day
abbrev noon : DateTime
noon = naive (10 * day_us + 12 * hour_us + 37 * minute_us)

align_to_interval_slot_example :
    (r : Aware) × (align_to_interval noon (pos 10) seoul ≡ some r) × IsSlotOf noon 10 seoul r
align_to_interval_slot_example = align_to_interval_slot noon 10 seoul (omega arith) (omega arith)

align_noon :
    align_to_interval noon (pos 10) seoul
    ≡ some (record { zone = utc; wall = 10 * day_us + 3 * hour_us + 30 * minute_us })
unfolding align_to_interval
align_noon = refl

abbrev evening : Aware
evening = record { zone = utc; wall = 10 * day_us + 12 * hour_us }

abbrev next_evening : Aware
next_evening = record { zone = utc; wall = 11 * day_us + 12 * hour_us }

split_by_local_day-Tiles_example :
    (chunks : List (Aware × Aware)) × (split_by_local_day evening next_evening seoul ≡ some chunks)
    × Tiles seoul (astimezone evening seoul).wall (astimezone next_evening seoul).wall chunks
split_by_local_day-Tiles_example = split_by_local_day-Tiles evening next_evening seoul (omega arith)
