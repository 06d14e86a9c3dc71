-- ===== src/Stations/Automatic.antt =====
-- `automatic_station_mappings`: links by the names, where they are unique, and else by the number and
-- the normalised name. The Counter and the dicts of lists are read as what they hold for a key.
pub mod Found
pub mod Exact
pub mod Once
use kor_travel_transport.Prelude.{
  ℕ, Bool, true, false, not, Option, none, some, List, [], ◌∷◌, map, keep, any, count, length, ltb,
  ◌==◌, ◌&&◌, ◌||◌, if◌then◌else◌,
}
use kor_travel_transport.Prelude.Chars.{Text, strip, text_beq}
use kor_travel_transport.Prelude.Dict.{Dict, get, put, values}
use kor_travel_transport.Stations.{
  KricStation, RailStation, CodeKey, code_beq, code_eq, provider_key, MatchKey, kric_code_line,
  source_names, match_beq, code_match_key, place_match_key, normalized_station_name,
}
use kor_travel_transport.Stations.Manual.{is_empty}
use kor_travel_transport.Stations.Effective.{is_none}

pub data MatchMethod : Type 0 where
  exact_identity station_number_and_name : MatchMethod

pub record AutomaticMapping : Type 0 where
  pub code : CodeKey
  pub target : Text
  pub match_method : MatchMethod

-- the item of a list that has one
abbrev pub sole {ℓ} : {A : Type ℓ} → List A → Option A
sole (x ∷ []) = some x
sole _ = none

abbrev pub is_code_line : MatchKey → Bool
is_code_line (kric_code_line name) = true
is_code_line (source_names operator line name) = false

abbrev pub written :
    Dict CodeKey RailStation → KricStation → Option RailStation → Dict CodeKey RailStation
written d row none = d
written d row (some place) = put d (provider_key row) place

-- a loop that writes a place for a code where it finds one
unfoldable pub collect_by :
    (KricStation → Option RailStation)
    → Dict CodeKey RailStation
    → List KricStation
    → Dict CodeKey RailStation
collect_by find d [] = d
collect_by find d (row ∷ rows) = collect_by find (written d row (find row)) rows

module _ (nfkc : Text → Text) (codes : List KricStation) (places : List RailStation) where
  abbrev pub code_name_count : MatchKey → ℕ
  code_name_count key = count (λ r. match_beq (code_match_key r) key) codes

  abbrev pub named : MatchKey → List RailStation
  named key = keep (λ p. match_beq (place_match_key p) key) places

  -- the place with the names of a row, if the names are unique on both sides
  abbrev pub exact_of : KricStation → Option RailStation
  exact_of row =
      if code_name_count (code_match_key row) == 1 then sole (named (code_match_key row)) else none

  abbrev pub is_ambiguous : KricStation → Bool
  is_ambiguous row =
      is_code_line (code_match_key row)
      && (ltb 1 (code_name_count (code_match_key row))
          || ltb 1 (length (named (code_match_key row))))

  unfoldable pub exact : Dict CodeKey RailStation
  unfolding collect_by
  exact = collect_by exact_of [] codes

  abbrev pub ambiguous_alias_codes : List CodeKey
  ambiguous_alias_codes = map provider_key (keep is_ambiguous codes)

  abbrev pub identity_of : RailStation → Text
  identity_of p = p.identity_key

  abbrev pub exact_targets : List Text
  exact_targets = map identity_of (values exact)

  unfoldable pub has_number_name : Text → Text → KricStation → Bool
  unfolding strip normalized_station_name
  has_number_name number name row =
      text_beq (strip row.station_code) number
      && text_beq (normalized_station_name nfkc row.station_name) name

  unfoldable pub place_has : Text → Text → RailStation → Bool
  unfolding strip normalized_station_name
  place_has number name place =
      text_beq (strip place.station_number) number
      && text_beq (normalized_station_name nfkc place.station_name) name

  abbrev pub free_place : Option RailStation → Option RailStation
  free_place none = none
  free_place (some place) =
      if any (text_beq place.identity_key) exact_targets then none else some place

  -- a row that has a link, is ambiguous, or has no number and name of its own
  abbrev pub is_passed_over : KricStation → Text → Text → Bool
  is_passed_over row number name =
      not (is_none (get exact (provider_key row)))
      || (any (code_beq (provider_key row)) ambiguous_alias_codes
          || (is_empty number
              || (is_empty name || not (count (has_number_name number name) codes == 1))))

  abbrev pub numbered : KricStation → Text → Text → Option RailStation
  numbered row number name =
      if is_passed_over row number name
      then none
      else free_place (sole (keep (place_has number name) places))

  unfoldable pub number_of : KricStation → Option RailStation
  unfolding has_number_name place_has strip normalized_station_name
  number_of row =
      numbered row (strip row.station_code) (normalized_station_name nfkc row.station_name)

  unfoldable pub by_number : Dict CodeKey RailStation
  unfolding collect_by number_of
  by_number = collect_by number_of [] codes

  abbrev pub target_count : Text → ℕ
  target_count t = count (λ p. text_beq p.identity_key t) (values by_number)

  abbrev pub number_result : CodeKey → Option RailStation → Option AutomaticMapping
  number_result code none = none
  number_result code (some place) =
      if target_count place.identity_key == 1
      then some (record {
        code = code;
        target = place.identity_key;
        match_method = station_number_and_name;
      })
      else none

  abbrev pub result_from :
      CodeKey → Option RailStation → Option RailStation → Option AutomaticMapping
  result_from code none numbered_place = number_result code numbered_place
  result_from code (some place) numbered_place =
      some (record { code = code; target = place.identity_key; match_method = exact_identity })

  abbrev pub result_of : KricStation → Option AutomaticMapping
  result_of row =
      result_from (provider_key row) (get exact (provider_key row))
        (get by_number (provider_key row))

  abbrev pub with_result : Option AutomaticMapping → List AutomaticMapping → List AutomaticMapping
  with_result none results = results
  with_result (some m) results = m ∷ results

  abbrev pub results_of : List KricStation → List AutomaticMapping
  results_of [] = []
  results_of (row ∷ rows) = with_result (result_of row) (results_of rows)

  unfoldable pub automatic_station_mappings : List AutomaticMapping
  unfolding exact by_number
  automatic_station_mappings = results_of codes
