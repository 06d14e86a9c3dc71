-- ===== src/FeeRules.antt =====
-- backend/app/services/fee_rules.py: which stored rules price a request, and the whole quote.
-- The database gives the stored rules and a parking lot by its id, and the holiday service gives a
-- lookup of a range of dates: these are arguments. The messages for the user are left out, but for
-- whether the quote names sample rules.
pub mod Select
pub mod Answers
use kor_travel_transport.Prelude.{
  ℕ, ◌-◌, Bool, true, false, not, Option, none, some, List, [], ◌∷◌, ◌++◌, map, any, keep, ltb,
  length, ◌==◌, ◌&&◌, ◌||◌, if◌then◌else◌, String, str_eq, ℤ, pos, leb_ℤ,
}
use kor_travel_transport.Prelude.Chars.{codes}
use kor_travel_transport.Prelude.Dict.{values}
use kor_travel_transport.Clock.{
  Aware, DateTime, aware, seoul, instant, date_of, to_seoul, serialize_utc,
}
use kor_travel_transport.Fee.{
  FeeRule, Result, ok, err, BreakdownItem, CalculatedFee, Calendar, by_day_type,
  calculate_total_fee,
}

-- `rule.parking_lot_id == lot_id`
abbrev pub is_lot : ℕ → FeeRule → Bool
is_lot l r = elim r.parking_lot_id [ none ↦ false | some m ↦ m == l ]

abbrev pub has_lot : FeeRule → Bool
has_lot r = elim r.parking_lot_id [ none ↦ false | some m ↦ true ]

-- a rule for all lots, and none of the old rows whose lot name was not matched
abbrev pub is_generic : FeeRule → Bool
is_generic r = not (has_lot r) && not (r.raw_item.parking_name || r.raw_item.fee_id)

-- `{rule.parking_lot_id for rule in rules if rule.parking_lot_id is not None}`
pub lot_ids : List FeeRule → List ℕ
lot_ids [] = []
lot_ids (r ∷ rs) =
    let seen = lot_ids rs in
    elim r.parking_lot_id [
      | none ↦ seen
      | some l ↦ if any (λ m. m == l) seen then seen else l ∷ seen
    ]

-- `list({rule.day_type: rule for rule in selected}.values())`
pub one_per_day_type : List FeeRule → List FeeRule
unfolding by_day_type
one_per_day_type selected = values (by_day_type [] selected)

unfoldable pub select_fee_rules : List FeeRule → Option ℕ → List FeeRule × Option String
unfolding lot_ids one_per_day_type
select_fee_rules rules (some lot_id) =
    (one_per_day_type (keep is_generic rules ++ keep (is_lot lot_id) rules), none)
select_fee_rules rules none =
    let generic = keep is_generic rules in
    let lots = lot_ids rules in
    if ltb 0 (length generic)
    then (one_per_day_type generic, none)
    else if ltb 1 (length lots)
    then ([], some "parking_lot_required")
    else (
      one_per_day_type (
          keep (λ r. elim r.parking_lot_id [ none ↦ false | some l ↦ any (λ m. m == l) lots ])
            rules),
      none,
    )

pub record Lot : Type 0 where
  pub name : String

pub record Request : Type 0 where
  pub airport_code : String
  pub parking_lot_id : Option ℕ
  pub vehicle_size : String
  pub entry_at : Aware
  pub exit_at : Aware

-- what `get_holidays` returns, with `is_holiday` and `local_date` of the items
pub record HolidayLookup : Type 0 where
  pub status : String
  pub items : List (ℕ × Bool)

pub record Settings : Type 0 where
  pub enable_incheon_fee_collection : Bool
  pub enable_fee_collection : Bool

pub record Supported : Type 0 where
  pub total_fee : ℕ
  pub breakdown : List BreakdownItem
  pub rule_updated_at : Option Aware
  pub sample : Bool

-- A FeeCalculationResponse: a reason code, or the quote.
pub data Answer : Type 0 where
  unavailable : String → Answer
  supported : Supported → Answer

-- `min(serialize_utc(rule.source_updated_at) for rule in rules)`, of no rule a ValueError
unfoldable oldest_update : List FeeRule → Option Aware
unfolding serialize_utc
oldest_update [] = none
oldest_update (r ∷ rs) =
    let mine = serialize_utc r.source_updated_at in
    elim (oldest_update rs) [
      | none ↦ some mine
      | some best ↦ some (if ltb (instant best) (instant mine) then best else mine)
    ]

-- `"5" in lot.name`
abbrev pub names_five : Lot → Bool
names_five l = any (λ c. c == b'5') (codes l.name)

abbrev pub starts_p3 : List ℕ → Bool
starts_p3 (p ∷ n ∷ rest) = p == b'P' && n == b'3'
starts_p3 _ = false

-- the keys of `OFFICIAL_FEE_URLS`
abbrev pub official_airports : List String
official_airports = "GMP" ∷ "ICN" ∷ "PUS" ∷ "CJU" ∷ "CJJ" ∷ "USN" ∷ "HIN" ∷ "RSU" ∷ []

abbrev pub has_official_url : String → Bool
has_official_url code = any (λ k. str_eq k code) official_airports

-- `{rule.day_type for rule in rules} == {"weekday", "holiday"}`
unfoldable pub has_both_day_types : List FeeRule → Bool
has_both_day_types rules =
    any (λ r. str_eq r.day_type "weekday") rules
    && any (λ r. str_eq r.day_type "holiday") rules
    && not (any (λ r. not (str_eq r.day_type "weekday") && not (str_eq r.day_type "holiday")) rules)

-- the test of the Incheon rules
unfoldable pub is_incomplete : FeeRule → Bool
is_incomplete r =
    leb_ℤ r.daily_max_fee (pos 0)
    || leb_ℤ r.unit_minutes (pos 0)
    || leb_ℤ r.unit_fee (pos 0)
    || leb_ℤ r.basic_minutes (pos 0)
    || leb_ℤ r.basic_fee (pos 0)

-- The airports whose holiday rate follows the calendar, with Friday to Sunday as holidays.
abbrev pub follows_calendar : String → Bool
follows_calendar code = str_eq code "GMP" || str_eq code "PUS" || str_eq code "CJU"

abbrev pub calendar_of : HolidayLookup → Calendar
calendar_of found = record {
  is_holiday_date = λ d. any (λ i. i.1 && i.0 == d) found.items;
  is_holiday_weekday = λ w. w == 4 || w == 5 || w == 6;
}

-- airports with one rate for every day
abbrev pub no_calendar : Calendar
no_calendar = record { is_holiday_date = λ d. false; is_holiday_weekday = λ w. false }

abbrev pub grace_of : String → Option Lot → ℤ
grace_of code none = pos 10
grace_of code (some lot) =
    if str_eq code "PUS" && starts_p3 (codes lot.name) then pos 20 else pos 10

-- the `try` block, and the response
pub calculated : Request → List FeeRule → Option Lot → Calendar → Bool → Answer
calculated q rules lot c sample =
    elim (calculate_total_fee (aware q.entry_at) (aware q.exit_at) rules seoul c
      (some (grace_of q.airport_code lot))) [
        | err e ↦ unavailable "invalid_rules"
        | ok fee ↦ supported (record {
          total_fee = fee.total_fee;
          breakdown = fee.breakdown;
          rule_updated_at = oldest_update rules;
          sample = sample;
        })
      ]

-- The part behind the tests of the rules: the holiday calendar, and the price.
unfoldable pub with_calendar :
    Request → (ℕ → ℕ → HolidayLookup) → List FeeRule → Option Lot → Answer
unfolding to_seoul
with_calendar q get_holidays rules lot =
    let sample = any (λ r. r.raw_item.seeded) rules in
    let start_date = date_of (to_seoul (aware q.entry_at)).wall in
    let last = record q.exit_at { wall = q.exit_at.wall - 1 } in
    let found = get_holidays start_date (date_of (to_seoul (aware last)).wall) in
    if follows_calendar q.airport_code
    then (if not (str_eq found.status "success" || str_eq found.status "sample")
        then unavailable "holiday_calendar_unavailable"
        else calculated q rules lot (calendar_of found) (sample || str_eq found.status "sample"))
    else calculated q rules lot no_calendar sample

-- `lot is None and len(selected_lot_ids) == 1`
unfoldable pub resolved_lot : (ℕ → Option Lot) → Option Lot → List ℕ → Option Lot
resolved_lot find_lot none (l ∷ []) = find_lot l
resolved_lot find_lot lot ids = lot

abbrev pub lot_named_five : Option Lot → Bool
lot_named_five none = false
lot_named_five (some lot) = names_five lot

-- the tests on the selected rules, in the order of the code
unfoldable pub with_rules :
    Request → Settings → (ℕ → ℕ → HolidayLookup) → List FeeRule → Option Lot → Answer
with_rules q settings get_holidays rules lot =
    let is_incheon = str_eq q.airport_code "ICN" in
    if length rules == 0
    then (if (if is_incheon
          then settings.enable_incheon_fee_collection
          else settings.enable_fee_collection)
        then unavailable "rules_unavailable"
        else unavailable "collection_disabled")
    else if not (has_both_day_types rules)
    then unavailable "incomplete_rules"
    else if is_incheon && any is_incomplete rules
    then unavailable "incomplete_rules"
    else if not (has_official_url q.airport_code)
    then unavailable "policy_unverified"
    else if str_eq q.airport_code "CJJ" && str_eq q.vehicle_size "large" && not (lot_named_five lot)
    then unavailable "vehicle_unsupported"
    else with_calendar q get_holidays rules lot

unfoldable pub quote_parking_fee :
    Request
    → Settings
    → (ℕ → ℕ → HolidayLookup)
    → (ℕ → Option Lot)
    → Option Lot
    → List FeeRule
    → Answer
quote_parking_fee q settings get_holidays find_lot lot stored =
    let selection = select_fee_rules stored q.parking_lot_id in
    if str_eq q.airport_code "ICN" && str_eq q.vehicle_size "large"
    then unavailable "vehicle_unsupported"
    else elim selection.1 [
      | some selection_error ↦ unavailable selection_error
      | none ↦
          with_rules q settings get_holidays selection.0
            (resolved_lot find_lot lot (lot_ids selection.0))
    ]
