-- ===== src/Stations/Manual.antt =====
-- `validate_manual_mappings`: the links that an administrator saves.
pub mod Valid
use kor_travel_transport.Prelude.{
  ℕ, Bool, true, false, not, Option, none, some, List, [], ◌∷◌, any, length, ltb, ◌&&◌, ◌||◌,
  if◌then◌else◌,
}
use kor_travel_transport.Prelude.Chars.{Text, strip, text_beq}
use kor_travel_transport.Prelude.Sort.{sorted}
use kor_travel_transport.Stations.{CodeKey, code_beq, code_before}

-- the fields of an object, empty where one is missing
pub record MappingItem : Type 0 where
  pub operator_code : Text
  pub line_code : Text
  pub station_code : Text
  pub rail_station_identity_key : Text
  pub note : Text

-- the JSON that is sent: an array of objects and of other values
pub data Mappings : Type 0 where
  not_array : Mappings
  array : List (Option MappingItem) → Mappings

pub record ManualMapping : Type 0 where
  pub code : CodeKey
  pub target : Text
  pub note : Text

pub data Validated : Type 0 where
  ok : List ManualMapping → Validated
  type_error value_error : Validated

abbrev pub is_empty : Text → Bool
is_empty [] = true
is_empty (c ∷ s) = false

unfoldable pub mapping_of : MappingItem → ManualMapping
unfolding strip
mapping_of item = record {
  code = record {
    operator_code = strip item.operator_code;
    line_code = strip item.line_code;
    station_code = strip item.station_code;
  };
  target = strip item.rail_station_identity_key;
  note = strip item.note;
}

-- what one item is refused for, whatever the others are
abbrev pub is_refused : List CodeKey → ManualMapping → Bool
is_refused catalog m =
    is_empty m.code.operator_code
    || is_empty m.code.line_code
    || is_empty m.code.station_code
    || is_empty m.target
    || ltb 400 (length m.target)
    || not (any (code_beq m.code) catalog)
    || ltb 500 (length m.note)

abbrev pub with_item : ManualMapping → Validated → Validated
with_item m (ok ms) = ok (m ∷ ms)
with_item m failure = failure

-- the loop over the items, with the codes and targets that it has seen
unfoldable pub validate_items :
    List CodeKey → List CodeKey → List Text → List (Option MappingItem) → Validated
unfolding mapping_of
validate_items catalog keys targets [] = ok []
validate_items catalog keys targets (none ∷ items) = type_error
validate_items catalog keys targets (some item ∷ items) =
    let m = mapping_of item in
    let rest = validate_items catalog (m.code ∷ keys) (m.target ∷ targets) items in
    if is_refused catalog m || (any (code_beq m.code) keys || any (text_beq m.target) targets)
    then value_error
    else with_item m rest

abbrev pub earlier : ManualMapping → ManualMapping → Bool
earlier a b = code_before a.code b.code

abbrev pub in_order : Validated → Validated
in_order (ok ms) = ok (sorted earlier ms)
in_order failure = failure

unfoldable pub validate_manual_mappings : Mappings → List CodeKey → Validated
unfolding validate_items
validate_manual_mappings not_array catalog = type_error
validate_manual_mappings (array items) catalog = in_order (validate_items catalog [] [] items)
