-- ===== src/Examples/ParsingExamples.antt =====
-- The fees of the short-stay lots of Incheon.
use kor_travel_transport.Prelude.{ℕ, ◌≡◌, refl, List, [], ◌∷◌, map}
use kor_travel_transport.Prelude.Chars.{Text, codes, strip, text_beq}
use kor_travel_transport.Prelude.Dict.{get, put}
use kor_travel_transport.Holidays.{number}
use kor_travel_transport.Clock.{naive}
use kor_travel_transport.FeeParsing.{
  FeeItem, ParsedFeeRule, Parsed, ok, value_error, parse_incheon_fee, profile_rules,
  descriptions_by_id, build_incheon_fee_rule, parse_hhmm_duration, parse_won_amount,
}
use kor_travel_transport.FeeParsing.Complete.{IsPricing, parse_incheon_fee-IsPricing}

abbrev item : Text → Text → FeeItem
item charid chardesc = record { charid = charid; chardesc = chardesc }

abbrev short_stay : List FeeItem
short_stay =
    item (codes "FB00000001") (codes "최초 00:30 1,200원")
    ∷ item (codes "FB00000001") (codes "30분 초과 00:15 600원")
    ∷ item (codes "NF00000001") (codes "일 최대 24,000원")
    ∷ []

abbrev fees_of : Parsed (List ParsedFeeRule) → List (ℕ × ℕ)
fees_of value_error = []
fees_of (ok rules) = map (λ r. (r.basic_fee, r.unit_minutes)) rules

parse_incheon_fee_test :
    fees_of (parse_incheon_fee (number 0) short_stay)
    ≡ (1200, 15) ∷ (1200, 15) ∷ (1200, 15) ∷ (1200, 15) ∷ []
unfolding parse_incheon_fee profile_rules descriptions_by_id build_incheon_fee_rule
    parse_hhmm_duration parse_won_amount get put strip text_beq
parse_incheon_fee_test = refl

parse_incheon_fee-IsPricing_example :
    IsPricing 7 (naive 0) (parse_incheon_fee (number 0) short_stay)
parse_incheon_fee-IsPricing_example = parse_incheon_fee-IsPricing 7 (naive 0) (number 0) short_stay
