-- ===== src/Fee.antt =====
-- backend/app/services/fee_calculator.py: the price of a stay from an airport's fee rules.
-- Instants are microseconds. Where the code takes `ceil` of a quotient of floats, the operands are
-- small enough for the quotient to be exact to an integer, so the ceiling is that of the fraction.
pub mod Chunks
pub mod Caps
pub mod Stay
pub mod Bounds
pub mod Monotone
use kor_travel_transport.Prelude.{
  ℕ, zero, suc, ◌+◌, ◌-◌, ◌*◌, ◌/◌, Bool, true, false, not, Option, none, some, List, [], ◌∷◌, ◌++◌,
  min, max, ltb, leb, ◌==◌, ◌||◌, if◌then◌else◌, String, str_eq, ℤ, pos, negsuc, pos_part, ltb_ℤ,
  leb_ℤ,
}
use kor_travel_transport.Prelude.Dict.{Dict, get, put, string_eq}
use kor_travel_transport.Clock.{
  Zone, Aware, DateTime, naive, aware, offset, instant, minute_us, day_us, date_of, weekday,
}

-- What the code reads of `raw_item_json`: whether the three keys hold a true value.
pub record RawItem : Type 0 where
  pub parking_name : Bool
  pub fee_id : Bool
  pub seeded : Bool

-- the columns of a fee rule that the code reads
pub record FeeRule : Type 0 where
  pub parking_lot_id : Option ℕ
  pub raw_item : RawItem
  pub day_type : String
  pub free_minutes : ℤ
  pub basic_minutes : ℤ
  pub basic_fee : ℤ
  pub unit_minutes : ℤ
  pub unit_fee : ℤ
  pub daily_max_fee : ℤ
  pub source_updated_at : DateTime

-- The ValueErrors, and `stuck` for a loop of the model that ran out of fuel.
pub data FeeError : Type 0 where
  naive_time exit_not_later rules_missing rule_invalid stuck : FeeError

pub data Result {ℓ} (A : Type ℓ) : Type ℓ where
  ok : A → Result A
  err : FeeError → Result A

pub record BreakdownItem : Type 0 where
  pub date : ℕ
  pub day_type : String
  pub duration_minutes : ℕ
  pub applied_fee : ℕ

pub record CalculatedFee : Type 0 where
  pub total_fee : ℕ
  pub breakdown : List BreakdownItem

-- the keyword arguments `holiday_dates` and `holiday_weekdays`, as membership tests
pub record Calendar : Type 0 where
  pub is_holiday_date : ℕ → Bool
  pub is_holiday_weekday : ℕ → Bool

pub resolve_day_type : Calendar → Zone → ℕ → String
resolve_day_type c z at =
    let date = date_of (at + offset z) in
    if c.is_holiday_weekday (weekday date) || c.is_holiday_date date then "holiday" else "weekday"

abbrev pub ceil_div : ℕ → ℕ → ℕ
ceil_div a b = (a + b - 1) / b

unfoldable pub rule_is_invalid : FeeRule → Bool
rule_is_invalid r =
    leb_ℤ r.basic_minutes (pos 0)
    || leb_ℤ r.unit_minutes (pos 0)
    || ltb_ℤ r.basic_fee (pos 0)
    || ltb_ℤ r.unit_fee (pos 0)
    || ltb_ℤ r.daily_max_fee (pos 0)

-- `min(fee, rule.daily_max_fee)` where there is a daily maximum
pub cap_fee : FeeRule → ℕ → ℕ
cap_fee r fee = if ltb_ℤ (pos 0) r.daily_max_fee then min fee (pos_part r.daily_max_fee) else fee

-- The fee of one chunk under a rule that passed the test, so that each number is its `pos_part`.
pub chunk_fee : FeeRule → Bool → Bool → ℕ → ℕ
unfolding cap_fee
chunk_fee r is_free_visit is_first duration =
    let remaining = duration - pos_part r.basic_minutes in
    if is_free_visit
    then 0
    else if is_first
    then cap_fee r (
        if remaining == 0
        then pos_part r.basic_fee
        else pos_part r.basic_fee
          + ceil_div remaining (max (pos_part r.unit_minutes) 1) * pos_part r.unit_fee)
    else cap_fee r (ceil_div duration (pos_part r.unit_minutes) * pos_part r.unit_fee)

pub chunk_minutes : ℕ → ℕ → ℕ
chunk_minutes start end = max 1 (ceil_div (end - start) minute_us)

-- What the loop reads and does not change.
pub record Visit : Type 0 where
  pub calendar : Calendar
  pub zone : Zone
  pub weekday_rule : FeeRule
  pub holiday_rule : FeeRule
  pub is_free_visit : Bool
  pub entry_at : ℕ

-- `rules_by_day_type[day_type]`
unfoldable pub rule_at : Visit → ℕ → FeeRule
unfolding resolve_day_type
rule_at v at =
    if str_eq (resolve_day_type v.calendar v.zone at) "holiday"
    then v.holiday_rule
    else v.weekday_rule

pub breakdown_item : Visit → ℕ → ℕ → BreakdownItem
unfolding rule_at chunk_fee chunk_minutes
breakdown_item v start end = record {
  date = date_of (start + offset v.zone);
  day_type = (rule_at v start).day_type;
  duration_minutes = chunk_minutes start end;
  applied_fee =
      chunk_fee (rule_at v start) v.is_free_visit (start == v.entry_at) (chunk_minutes start end);
}

-- the `while` loop
pub fee_loop : ℕ → Visit → ℕ → ℕ → ℕ → List BreakdownItem → Result CalculatedFee
unfolding breakdown_item rule_is_invalid
fee_loop zero v exit_at chunk_start total_fee breakdown = err stuck
fee_loop (suc fuel) v exit_at chunk_start total_fee breakdown =
    let chunk_end = min (chunk_start + day_us) exit_at in
    let item = breakdown_item v chunk_start chunk_end in
    let rest =
      fee_loop fuel v exit_at chunk_end (total_fee + item.applied_fee) (breakdown ++ item ∷ []) in
    if ltb chunk_start exit_at
    then (if rule_is_invalid (rule_at v chunk_start) then err rule_invalid else rest)
    else ok (record { total_fee = total_fee; breakdown = breakdown })

-- `{rule.day_type: rule for rule in rules}`
unfoldable pub by_day_type : Dict String FeeRule → List FeeRule → Dict String FeeRule
by_day_type d [] = d
by_day_type d (r ∷ rs) = by_day_type (put d r.day_type r) rs

-- `(exit_at - entry_at).total_seconds() <= free_minutes * 60`
pub is_within : ℕ → ℤ → Bool
is_within stay (pos n) = leb stay (n * minute_us)
is_within stay (negsuc n) = false

abbrev pub or_else {ℓ} : {A : Type ℓ} → Option A → A → A
or_else none a = a
or_else (some b) a = b

-- `is_free_visit` is decided once, by the rule of the entry.
unfoldable pub visit_of : ℕ → ℕ → FeeRule → FeeRule → Calendar → Zone → Option ℤ → Visit
unfolding is_within rule_at
visit_of entry_at exit_at weekday_rule holiday_rule c z grace_minutes =
    let v : Visit = record {
      calendar = c;
      zone = z;
      weekday_rule = weekday_rule;
      holiday_rule = holiday_rule;
      is_free_visit = false;
      entry_at = entry_at;
    } in
    let free_minutes = or_else grace_minutes (rule_at v entry_at).free_minutes in
    record v { is_free_visit = is_within (exit_at - entry_at) free_minutes }

-- The part of `calculate_total_fee` behind its first tests. A round takes a day of the stay.
pub priced_stay : ℕ → ℕ → FeeRule → FeeRule → Calendar → Zone → Option ℤ → Result CalculatedFee
unfolding fee_loop visit_of
priced_stay entry_at exit_at w h c z grace =
    fee_loop ((exit_at - entry_at) / day_us + 2) (visit_of entry_at exit_at w h c z grace) exit_at
      entry_at 0 []

unfoldable pub calculate_total_fee :
    DateTime → DateTime → List FeeRule → Zone → Calendar → Option ℤ → Result CalculatedFee
unfolding by_day_type get put priced_stay
calculate_total_fee (naive _) exit rules z c grace = err naive_time
calculate_total_fee (aware entry) (naive _) rules z c grace = err naive_time
calculate_total_fee (aware entry) (aware exit) rules z c grace =
    let rules_by_day_type = by_day_type [] rules in
    if leb (instant exit) (instant entry)
    then err exit_not_later
    else elim (get rules_by_day_type "weekday") [
      | none ↦ err rules_missing
      | some w ↦ elim (get rules_by_day_type "holiday") [
        | none ↦ err rules_missing
        | some h ↦ priced_stay (instant entry) (instant exit) w h c z grace
      ]
    ]
