-- ===== src/Examples/StationExamples.antt =====
-- Two codes and two places, one linked by its names and one by its number.
use kor_travel_transport.Prelude.{
  ℕ, ◌≤◌, ◌≡◌, refl, arith, Bool, true, ◌++◌, Option, none, some, List, [], ◌∷◌, count, map, All,
}
use kor_travel_transport.Prelude.Chars.{Text, codes, strip, text_beq, text_ltb}
use kor_travel_transport.Prelude.Dict.{get, put}
use kor_travel_transport.Prelude.Sort.{sorted, insert}
use kor_travel_transport.Stations.{
  KricStation, RailStation, CodeKey, code_eq, code_before, provider_key, code_match_key,
  place_match_key, normalized_station_name,
}
use kor_travel_transport.Stations.Manual.{
  ManualMapping, array, mapping_of, validate_items, validate_manual_mappings,
}
use kor_travel_transport.Stations.Effective.{
  StoredLink, link, manual, manual_loop, automatic_loop, effective_station_mappings,
}
use kor_travel_transport.Stations.Effective.Once.{links_to, effective_station_mappings-once}
use kor_travel_transport.Stations.Effective.Saved.{
  stored_manual, validate_manual_mappings-effective,
}
use kor_travel_transport.Stations.Automatic.{
  automatic_station_mappings, exact, by_number, number_of, has_number_name, place_has, collect_by,
}
use kor_travel_transport.Stations.Automatic.Once.{automatic_station_mappings-once}
use kor_travel_transport.Stations.Plan.{
  relink, flush, set_link, link_updates, updates_from, target_id, blockers, mismatches, occupied,
  has_station,
}
use kor_travel_transport.Stations.Apply.{
  Registry, Request, Response, applied, apply_automatic_station_mappings, is_ready, records_valid,
}
use kor_travel_transport.Stations.Apply.Linked.{IsClean, apply_automatic_station_mappings-IsClean}

abbrev code : Text → CodeKey
code number = record { operator_code = codes "KR"; line_code = codes "1"; station_code = number }

abbrev seoul : KricStation
seoul = record {
  operator_code = codes "KR";
  line_code = codes "1";
  station_code = codes "133";
  operator_name = codes "Korail";
  line_name = codes "Line 1";
  station_name = codes " Seoul";
  rail_station_id = none;
  active = true;
}

abbrev busan : KricStation
busan = record {
  operator_code = codes "KR";
  line_code = codes "1";
  station_code = codes "140";
  operator_name = codes "Korail";
  line_name = codes "Line 1";
  station_name = codes "Busan (new)";
  rail_station_id = none;
  active = true;
}

abbrev seoul_place : RailStation
seoul_place = record {
  id = 1;
  identity_key = codes "s";
  rail_operator_name = codes "Korail";
  operating_line_name = codes "Line 1";
  station_number = codes "";
  station_name = codes "Seoul";
}

abbrev busan_place : RailStation
busan_place = record {
  id = 2;
  identity_key = codes "b";
  rail_operator_name = codes "KR";
  operating_line_name = codes "1";
  station_number = codes "140";
  station_name = codes "Busan";
}

abbrev two_codes : List KricStation
two_codes = seoul ∷ busan ∷ []

abbrev two_places : List RailStation
two_places = seoul_place ∷ busan_place ∷ []

automatic_station_mappings_test :
    map (λ m. m.target) (automatic_station_mappings (λ s. s) two_codes two_places)
    ≡ codes "s" ∷ codes "b" ∷ []
unfolding automatic_station_mappings exact by_number number_of has_number_name place_has collect_by
    provider_key code_match_key place_match_key normalized_station_name strip get put text_beq
automatic_station_mappings_test = refl

automatic_station_mappings-once_example :
    count
      (λ m. text_beq m.target (codes "b"))
      (automatic_station_mappings (λ s. s) two_codes two_places)
    ≤ 1
unfolding provider_key strip text_beq
automatic_station_mappings-once_example =
    automatic_station_mappings-once (λ s. s) two_codes two_places (codes "b") ((refl, tt), (tt, tt))
      (ground arith)

-- an automatic link to the place that the manual one has taken
effective_station_mappings-once_example :
    links_to (codes "b") (
      effective_station_mappings
        (λ keys. keys)
        two_codes
        two_places
        (record { code = code (codes "133"); target = codes "b" } ∷ [])
        (record { code = code (codes "140"); target = codes "b" } ∷ []))
    ≤ 1
effective_station_mappings-once_example =
    effective_station_mappings-once (λ keys. keys) two_codes two_places
      (record { code = code (codes "133"); target = codes "b" } ∷ [])
      (record { code = code (codes "140"); target = codes "b" } ∷ []) (codes "b")

abbrev saved : List ManualMapping
saved = record { code = code (codes "140"); target = codes "b"; note = [] } ∷ []

validate_manual_mappings-effective_example :
    All
      (λ m.
        get
          (effective_station_mappings
            (λ keys. keys)
            two_codes
            two_places
            []
            (map stored_manual saved))
          m.code
        ≡ some (link m.target manual))
      saved
unfolding validate_manual_mappings validate_items mapping_of strip provider_key text_beq sorted
validate_manual_mappings-effective_example =
    validate_manual_mappings-effective
      (array (
        some (record {
          operator_code = codes "KR";
          line_code = codes " 1";
          station_code = codes "140";
          rail_station_identity_key = codes "b ";
          note = [];
        })
        ∷ []))
      (code (codes "140") ∷ []) saved (λ keys. keys) two_codes two_places [] refl
      (λ k h. ground (arith, h)) (refl, tt)

-- the two places are exchanged in the table and in the stored links
abbrev exchanged_codes : List KricStation
exchanged_codes =
    record seoul { rail_station_id = some 2 } ∷ record busan { rail_station_id = some 1 } ∷ []

abbrev registry : Registry
registry = record {
  automatic_mappings =
      record { code = code (codes "133"); target = codes "b" }
      ∷ record { code = code (codes "140"); target = codes "s" }
      ∷ [];
  manual_mappings = [];
  documents_valid = true;
}

abbrev revision : Registry → Text
revision r = flatten r.automatic_mappings
  where
    flatten : List StoredLink → Text
    flatten [] = []
    flatten (item ∷ items) = item.target ++ flatten items

abbrev request : Request
request = record { expected_revision = codes "bs"; candidate_revision = codes "sb" }

abbrev by_code : CodeKey → CodeKey → Bool
by_code a b = code_before a b

abbrev table_of : Response → List (Option ℕ)
table_of (applied n rows after) = map (λ r. r.rail_station_id) rows
table_of _ = []

apply_automatic_station_mappings_test :
    table_of (
      apply_automatic_station_mappings
        (λ s. s)
        (λ keys. keys)
        by_code
        revision
        request
        registry
        exchanged_codes
        two_places)
    ≡ some 1 ∷ some 2 ∷ []
unfolding apply_automatic_station_mappings is_ready records_valid relink flush set_link link_updates
    updates_from target_id blockers mismatches occupied effective_station_mappings manual_loop
    automatic_loop automatic_station_mappings exact by_number number_of has_number_name place_has
    collect_by provider_key code_match_key place_match_key normalized_station_name strip get put
    text_beq text_ltb sorted insert
apply_automatic_station_mappings_test = refl

exchanged_once : (n : ℕ) → count (has_station n) exchanged_codes ≤ 1
exchanged_once n = ground arith

apply_automatic_station_mappings-IsClean_example :
    IsClean
      (λ s. s)
      (λ keys. keys)
      by_code
      revision
      registry
      exchanged_codes
      two_places
      (apply_automatic_station_mappings
        (λ s. s)
        (λ keys. keys)
        by_code
        revision
        request
        registry
        exchanged_codes
        two_places)
apply_automatic_station_mappings-IsClean_example =
    apply_automatic_station_mappings-IsClean (λ s. s) (λ keys. keys) by_code revision request
      registry exchanged_codes two_places exchanged_once
