-- ===== src/Examples/TickExamples.antt =====
-- A tick with a highway collection that has stopped, and a fall of the free spaces.
use kor_travel_transport.Prelude.{
  ℕ, ◌≡◌, true, not, ◌&&◌, ◌||◌, Option, none, some, [], ◌∷◌, pos, ◌*◌,
}
use kor_travel_transport.Prelude.Dict.{get}
use kor_travel_transport.Prelude.Sort.{sorted, IsSorted}
use kor_travel_transport.Clock.{seoul, minute_us}
use kor_travel_transport.Recovery.{Db, finished}
use kor_travel_transport.Scan.{Tick, Ticked, reconcile_collection_runs}
use kor_travel_transport.RecoveryTick.{Trigger, airport, highway, TickResult, run_recovery_tick}
use kor_travel_transport.RecoveryTick.Both.{is_overdue, is_stalled, run_recovery_tick_alarm}
use kor_travel_transport.Thresholds.{Crossing, down}
use kor_travel_transport.Insights.{slot_eq, crossed_before, first_crossings}
use kor_travel_transport.Insights.First.{first_of, first_crossings-first}

abbrev calm : Tick
calm = record { has_budget = λ n. true; now = λ n. 9; metadata = λ n owner. finished }

abbrev no_runs : Db
no_runs id = none

abbrev starts : Trigger → Option ℕ
starts airport = none
starts highway = some 0

run_recovery_tick_alarm_example :
    (k : Ticked) × (r : TickResult) × (reconcile_collection_runs 3 10 calm 0 no_runs ≡ some k)
    × (run_recovery_tick 3 10 calm 0 no_runs starts (21 * minute_us) (some (λ t. true)) ≡ some r)
    × (r.scanned ≡ k)
    × (is_stalled r.ending ≡ (
        not k.raised
        && (is_overdue (21 * minute_us) (λ t. true) airport (starts airport)
            || is_overdue (21 * minute_us) (λ t. true) highway (starts highway))))
run_recovery_tick_alarm_example =
    run_recovery_tick_alarm 3 10 0 calm no_runs starts (21 * minute_us) (λ t. true)

abbrev fall : Crossing
fall = record {
  threshold = pos 10;
  direction = down;
  crossed_at = 60;
  previous_available_spaces = pos 12;
  current_available_spaces = pos 9;
}

first_crossings-first_example :
    (get (first_crossings seoul [] (sorted crossed_before (fall ∷ []))) (pos 10, 0)
      ≡ first_of seoul (pos 10, 0) (sorted crossed_before (fall ∷ [])))
    × IsSorted crossed_before (sorted crossed_before (fall ∷ []))
first_crossings-first_example = first_crossings-first seoul (pos 10, 0) (fall ∷ [])
