-- ===== src/FeeParsing.antt =====
-- backend/app/services/parsers.py: `parse_incheon_fee`, which reads the fees of Incheon airport from texts. A
-- digit is one of ASCII. `int(float(…))` of a text of digits is an argument, and so is the time that
-- `_parse_incheon_fee_updated_at` returns.
pub mod Complete
use kor_travel_transport.Prelude.{
  ℕ, ◌+◌, ◌*◌, ◌-◌, Bool, true, false, not, Option, none, some, List, [], ◌∷◌, ◌++◌, map, keep, any,
  ◌==◌, ◌&&◌, ◌||◌, if◌then◌else◌, ℤ, pos,
}
use kor_travel_transport.Prelude.Chars.{Text, codes, strip, text_beq, text_eq}
use kor_travel_transport.Prelude.Dict.{Dict, get, put}
use kor_travel_transport.Holidays.{is_digit, number}
use kor_travel_transport.Stations.Manual.{is_empty}
use kor_travel_transport.Clock.{DateTime}
use kor_travel_transport.Fee.{FeeRule, RawItem}

-- the texts of an item, empty where they are missing
pub record FeeItem : Type 0 where
  pub charid : Text
  pub chardesc : Text

pub record Profile : Type 0 where
  pub fee_id : Text
  pub max_id : Text
  pub lot_prefixes : List Text

abbrev pub incheon_fee_profiles : List Profile
incheon_fee_profiles =
    record {
      fee_id = codes "FB00000001";
      max_id = codes "NF00000001";
      lot_prefixes = codes "T1 단기주차장" ∷ codes "T2 단기주차장" ∷ [];
    }
    ∷ record {
      fee_id = codes "FB00000002";
      max_id = codes "NF00000002";
      lot_prefixes = codes "T1 장기주차장" ∷ codes "T2 장기주차장" ∷ [];
    }
    ∷ record {
      fee_id = codes "FB00000003";
      max_id = codes "NF00000003";
      lot_prefixes = codes "T1 예약주차장" ∷ codes "T2 예약주차장" ∷ [];
    }
    ∷ []

pub data DayType : Type 0 where
  weekday holiday : DayType

-- a ParsedFeeRule; its airport is Incheon, its vehicle size small and its free minutes 0
pub record ParsedFeeRule : Type 0 where
  pub parking_lot_name : Text
  pub day_type : DayType
  pub basic_minutes : ℕ
  pub basic_fee : ℕ
  pub unit_minutes : ℕ
  pub unit_fee : ℕ
  pub daily_max_fee : ℕ

pub data Parsed (A : Type 0) : Type 0 where
  ok : A → Parsed A
  value_error : Parsed A

-- `\d{2}:\d{2}` at the start of a text
abbrev pub time_at : Text → Option ℕ
time_at (a ∷ b ∷ c ∷ d ∷ e ∷ s) =
    if is_digit a && (is_digit b && (c == b':' && (is_digit d && is_digit e)))
    then some (number 0 (a ∷ b ∷ []) * 60 + number 0 (d ∷ e ∷ []))
    else none
time_at _ = none

abbrev pub or_number : Option ℕ → ℕ → ℕ
or_number none n = n
or_number (some m) n = m

unfoldable pub parse_hhmm_duration : Text → ℕ
parse_hhmm_duration [] = 0
parse_hhmm_duration (c ∷ s) = or_number (time_at (c ∷ s)) (parse_hhmm_duration s)

-- `([\d,]+)원`: a run of digits and commas is held until 원 follows it
abbrev pub won_match : Text → Text → Option Text
won_match run [] = none
won_match run (c ∷ s) =
    let longer = won_match (run ++ c ∷ []) s in
    let again = won_match [] s in
    if is_digit c || c == b','
    then longer
    else if c == 50896 && not (is_empty run)
    then some run
    else again

abbrev pub starts_with : Text → Text → Bool
starts_with s [] = true
starts_with [] (d ∷ ds) = false
starts_with (c ∷ s) (d ∷ ds) = c == d && starts_with s ds

abbrev pub contains : Text → Text → Bool
contains [] sub = is_empty sub
contains (c ∷ s) sub = starts_with (c ∷ s) sub || contains s sub

-- `next((d for d in descriptions if …), "")`
abbrev pub first_text : (Text → Bool) → List Text → Text
first_text p [] = []
first_text p (t ∷ ts) = let rest = first_text p ts in if p t then t else rest

abbrev pub or_none : Option (List Text) → List Text
or_none none = []
or_none (some ts) = ts

unfoldable pub descriptions_by_id : Dict Text (List Text) → List FeeItem → Dict Text (List Text)
unfolding strip
descriptions_by_id d [] = d
descriptions_by_id d (item ∷ items) =
    let char_id = strip item.charid in
    let description = strip item.chardesc in
    let skipped = descriptions_by_id d items in
    let kept =
      descriptions_by_id (put d char_id (or_none (get d char_id) ++ description ∷ [])) items in
    if is_empty char_id || is_empty description then skipped else kept

module _ (float_int : Text → ℕ) where
  abbrev pub amount_of : Text → ℕ
  amount_of digits = if is_empty digits then 0 else float_int digits

  abbrev pub won_of : Option Text → ℕ
  won_of none = 0
  won_of (some run) = amount_of (keep (λ c. not (c == b',')) run)

  unfoldable pub parse_won_amount : Text → ℕ
  parse_won_amount text = won_of (won_match [] text)

  abbrev pub with_basic : Text → DayType → ℕ → ℕ → ℕ → ℕ → ℕ → Parsed (Option ParsedFeeRule)
  with_basic lot_prefix day_type daily_max unit_minutes unit_fee basic_minutes basic_fee =
      if basic_minutes == 0 || basic_fee == 0
      then value_error
      else ok (
          some (record {
            parking_lot_name = lot_prefix;
            day_type = day_type;
            basic_minutes = basic_minutes;
            basic_fee = basic_fee;
            unit_minutes = unit_minutes;
            unit_fee = unit_fee;
            daily_max_fee = daily_max;
          }))

  abbrev pub with_unit : Text → DayType → ℕ → Text → ℕ → ℕ → Parsed (Option ParsedFeeRule)
  with_unit lot_prefix day_type daily_max basic_description unit_minutes unit_fee =
      if unit_minutes == 0 || unit_fee == 0
      then value_error
      else if is_empty basic_description
      then with_basic lot_prefix day_type daily_max unit_minutes unit_fee unit_minutes unit_fee
      else with_basic lot_prefix day_type daily_max unit_minutes unit_fee
          (parse_hhmm_duration basic_description) (parse_won_amount basic_description)

  abbrev pub with_max : Text → DayType → List Text → ℕ → Parsed (Option ParsedFeeRule)
  with_max lot_prefix day_type fees daily_max =
      let basic_description = first_text (λ t. starts_with t (codes "최초")) fees in
      let unit_description = first_text (λ t. contains t (codes "초과")) fees in
      if daily_max == 0
      then value_error
      else with_unit lot_prefix day_type daily_max basic_description
          (parse_hhmm_duration unit_description) (parse_won_amount unit_description)

  -- the descriptions of the fees and of the daily maximum
  unfoldable pub build_incheon_fee_rule :
      Text → DayType → List Text → List Text → Parsed (Option ParsedFeeRule)
  unfolding parse_hhmm_duration parse_won_amount
  build_incheon_fee_rule lot_prefix day_type [] [] = ok none
  build_incheon_fee_rule lot_prefix day_type [] (m ∷ ms) = value_error
  build_incheon_fee_rule lot_prefix day_type (f ∷ fs) [] = value_error
  build_incheon_fee_rule lot_prefix day_type (f ∷ fs) (m ∷ ms) =
      with_max lot_prefix day_type (f ∷ fs) (parse_won_amount m)

  abbrev pub append_rule :
      Parsed (Option ParsedFeeRule) → Parsed (List ParsedFeeRule) → Parsed (List ParsedFeeRule)
  append_rule value_error rest = value_error
  append_rule (ok rule) value_error = value_error
  append_rule (ok none) (ok rules) = ok rules
  append_rule (ok (some rule)) (ok rules) = ok (rule ∷ rules)

  -- the loops over the lots and the day types, from the rules that come after
  abbrev pub lot_rules :
      List Text → List Text → List Text → Parsed (List ParsedFeeRule) → Parsed (List ParsedFeeRule)
  lot_rules fees maxima [] rest = rest
  lot_rules fees maxima (lot ∷ lots) rest =
      append_rule (build_incheon_fee_rule lot weekday fees maxima) (
        append_rule (build_incheon_fee_rule lot holiday fees maxima)
          (lot_rules fees maxima lots rest))

  unfoldable pub profile_rules : Dict Text (List Text) → List Profile → Parsed (List ParsedFeeRule)
  unfolding build_incheon_fee_rule
  profile_rules by_id [] = ok []
  profile_rules by_id (p ∷ ps) =
      lot_rules (or_none (get by_id p.fee_id)) (or_none (get by_id p.max_id)) p.lot_prefixes
        (profile_rules by_id ps)

  unfoldable pub parse_incheon_fee : List FeeItem → Parsed (List ParsedFeeRule)
  unfolding profile_rules descriptions_by_id
  parse_incheon_fee items = profile_rules (descriptions_by_id [] items) incheon_fee_profiles
