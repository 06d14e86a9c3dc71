-- ===== src/Examples/FeeExamples.antt =====
-- A stay of a day and an hour from a Friday evening, under two rules like those of a large airport.
use kor_travel_transport.Prelude.{
  suc, ℕ, ◌+◌, ◌-◌, ◌*◌, ◌≤◌, ◌≡◌, ◌≢◌, ◌↔◌, refl, true, false, Option, none, some, List, [], ◌∷◌,
  String, pos, arith,
}
use kor_travel_transport.Prelude.Dict.{get, put, string_eq}
use kor_travel_transport.Clock.{Aware, aware, seoul, hour_us, day_us, instant}
use kor_travel_transport.Fee.{
  FeeRule, RawItem, CalculatedFee, Calendar, ok, err, stuck, ceil_div, by_day_type,
  calculate_total_fee,
}
use kor_travel_transport.Fee.Stay.{IsQuote, calculate_total_fee_iff, calculate_total_fee_ends}
use kor_travel_transport.Fee.Bounds.{total_fee_capped}
use kor_travel_transport.Fee.Monotone.{total_fee_mono}
use kor_travel_transport.FeeRules.{
  Request, HolidayLookup, Settings, unavailable, has_both_day_types, select_fee_rules, is_lot,
  quote_parking_fee, with_rules, with_calendar, resolved_lot,
}
use kor_travel_transport.FeeRules.Select.{lot_rule_first}
use kor_travel_transport.FeeRules.Answers.{incheon_never_invalid}

abbrev plain : RawItem
plain = record { parking_name = false; fee_id = false; seeded = false }

abbrev rule : String → Option ℕ → ℕ → FeeRule
rule day_type lot unit = record {
  parking_lot_id = lot;
  raw_item = plain;
  day_type = day_type;
  free_minutes = pos 10;
  basic_minutes = pos 30;
  basic_fee = pos 1000;
  unit_minutes = pos 10;
  unit_fee = pos unit;
  daily_max_fee = pos 20000;
  source_updated_at = aware (record { zone = seoul; wall = 0 });
}

abbrev weekday_rule : FeeRule
weekday_rule = rule "weekday" none 500

abbrev holiday_rule : FeeRule
holiday_rule = rule "holiday" none 700

abbrev rules : List FeeRule
rules = weekday_rule ∷ holiday_rule ∷ []

abbrev weekends : Calendar
weekends = record {
  is_holiday_date = λ d. false;
  is_holiday_weekday = λ w. elim w [ suc (suc (suc (suc (suc n)))) ↦ true | _ ↦ false ];
}

-- hours after 18:00 of the first Friday
abbrev friday : ℕ → Aware
friday h = record { zone = seoul; wall = 4 * day_us + 18 * hour_us + h * hour_us }

abbrev quoted : CalculatedFee
quoted = record {
  total_fee = 24200;
  breakdown =
      record { date = 4; day_type = "weekday"; duration_minutes = 1440; applied_fee = 20000 }
      ∷ record { date = 5; day_type = "holiday"; duration_minutes = 60; applied_fee = 4200 }
      ∷ [];
}

price_25 :
    calculate_total_fee (aware (friday 0)) (aware (friday 25)) rules seoul weekends (some (pos 10))
    ≡ ok quoted
unfolding calculate_total_fee
price_25 = refl

abbrev quoted_hour : CalculatedFee
quoted_hour = record {
  total_fee = 2500;
  breakdown =
      record { date = 4; day_type = "weekday"; duration_minutes = 60; applied_fee = 2500 } ∷ [];
}

price_1 :
    calculate_total_fee (aware (friday 0)) (aware (friday 1)) rules seoul weekends (some (pos 10))
    ≡ ok quoted_hour
unfolding calculate_total_fee
price_1 = refl

calculate_total_fee_iff_example :
    (calculate_total_fee (aware (friday 0)) (aware (friday 25)) rules seoul weekends (some (pos 10))
      ≡ ok quoted)
    ↔ IsQuote (friday 0) (friday 25) rules seoul weekends (some (pos 10)) quoted
calculate_total_fee_iff_example =
    calculate_total_fee_iff (friday 0) (friday 25) rules seoul weekends (some (pos 10)) quoted

calculate_total_fee_ends_example :
    calculate_total_fee (aware (friday 0)) (aware (friday 25)) rules seoul weekends none ≢ err stuck
calculate_total_fee_ends_example =
    calculate_total_fee_ends (aware (friday 0)) (aware (friday 25)) rules seoul weekends none

total_fee_mono_example : quoted_hour.total_fee ≤ quoted.total_fee
total_fee_mono_example =
    total_fee_mono (friday 0) (friday 1) (friday 25) rules seoul weekends (some (pos 10))
      quoted_hour quoted (omega arith) price_1 price_25

total_fee_capped_example :
    quoted.total_fee ≤ ceil_div (instant (friday 25) - instant (friday 0)) day_us * 20000
total_fee_capped_example =
    total_fee_capped (friday 0) (friday 25) rules seoul weekends (some (pos 10)) quoted price_25
      20000 ((refl, omega arith), ((refl, omega arith), tt))

-- two hours of grace
abbrev free_hour : CalculatedFee
free_hour = record {
  total_fee = 0;
  breakdown =
      record { date = 4; day_type = "weekday"; duration_minutes = 60; applied_fee = 0 } ∷ [];
}

price_free :
    calculate_total_fee (aware (friday 0)) (aware (friday 1)) rules seoul weekends (some (pos 120))
    ≡ ok free_hour
unfolding calculate_total_fee
price_free = refl

abbrev lot_rules : List FeeRule
lot_rules = weekday_rule ∷ rule "weekday" (some 3) 900 ∷ holiday_rule ∷ []

lot_rule_first_example : is_lot 3 (rule "weekday" (some 3) 900) ≡ true
lot_rule_first_example =
    lot_rule_first lot_rules 3 "weekday" (rule "weekday" (some 3) 900) refl
      (unfold select_fee_rules by_day_type get put in refl)

abbrev request : String → Request
request code = record {
  airport_code = code;
  parking_lot_id = none;
  vehicle_size = "small";
  entry_at = friday 0;
  exit_at = friday 25;
}

abbrev settings : Settings
settings = record { enable_incheon_fee_collection = true; enable_fee_collection = true }

abbrev all_well : ℕ → ℕ → HolidayLookup
all_well start end = record { status = "success"; items = [] }

abbrev down : ℕ → ℕ → HolidayLookup
down start end = record { status = "upstream_error"; items = [] }

incheon_never_invalid_example :
    quote_parking_fee (request "ICN") settings down (λ l. none) none rules
    ≢ unavailable "invalid_rules"
incheon_never_invalid_example =
    incheon_never_invalid (request "ICN") settings down (λ l. none) none rules refl (omega arith)

-- where the holidays decide the rate, a failed lookup leaves no price
no_calendar_no_price :
    quote_parking_fee (request "PUS") settings down (λ l. none) none rules
    ≡ unavailable "holiday_calendar_unavailable"
unfolding quote_parking_fee select_fee_rules with_rules with_calendar resolved_lot
    has_both_day_types get put
no_calendar_no_price = refl
