-- ===== src/FeeParsing/Complete.antt =====
-- What is read is fit to price a stay, and comes for both day types.
use kor_travel_transport.Prelude.{
  ℕ, ◌≡◌, refl, Bool, true, false, not, Option, none, some, List, [], ◌∷◌, count, All, ◌==◌, ◌&&◌,
  ◌||◌, if◌then◌else◌, Bool-cases, inl, inr, arith, pos, String,
}
use kor_travel_transport.Prelude.Chars.{Text, codes, text_beq, text_eq}
use kor_travel_transport.Prelude.Dict.{Dict, get}
use kor_travel_transport.Stations.Manual.{is_empty}
use kor_travel_transport.Clock.{DateTime}
use kor_travel_transport.Fee.{FeeRule}
use kor_travel_transport.FeeRules.{is_incomplete}
use kor_travel_transport.FeeParsing.{
  FeeItem, Profile, incheon_fee_profiles, DayType, weekday, holiday, ParsedFeeRule, Parsed, ok,
  value_error, starts_with, contains, first_text, or_none, parse_hhmm_duration, descriptions_by_id,
  parse_won_amount, with_basic, with_unit, build_incheon_fee_rule, append_rule, lot_rules,
  profile_rules, parse_incheon_fee,
}

abbrev pub day_name : DayType → String
day_name weekday = "weekday"
day_name holiday = "holiday"

-- the row of a rule, for a lot and a time of the source
abbrev pub stored_rule : ℕ → DateTime → ParsedFeeRule → FeeRule
stored_rule lot updated_at r = record {
  parking_lot_id = some lot;
  raw_item = record { parking_name = false; fee_id = true; seeded = false };
  day_type = day_name r.day_type;
  free_minutes = pos 0;
  basic_minutes = pos r.basic_minutes;
  basic_fee = pos r.basic_fee;
  unit_minutes = pos r.unit_minutes;
  unit_fee = pos r.unit_fee;
  daily_max_fee = pos r.daily_max_fee;
  source_updated_at = updated_at;
}

abbrev pub is_holiday : DayType → Bool
is_holiday weekday = false
is_holiday holiday = true

abbrev pub is_for : Text → Bool → ParsedFeeRule → Bool
is_for lot at_holiday r =
    text_beq r.parking_lot_name lot
    && (if at_holiday then is_holiday r.day_type else not (is_holiday r.day_type))

module _ (lot_id : ℕ) (updated_at : DateTime) where
  abbrev pub IsPriced : ParsedFeeRule → Type 0
  IsPriced r = is_incomplete (stored_rule lot_id updated_at r) ≡ false

  -- two rules of one lot for the two day types, or none
  abbrev Paired : Text → Parsed (Option ParsedFeeRule) → Parsed (Option ParsedFeeRule) → Type 0
  Paired lot (ok none) (ok none) = Unit
  Paired lot (ok (some r)) (ok (some q)) =
      ((r.parking_lot_name ≡ lot) × ((is_holiday r.day_type ≡ false) × IsPriced r))
      × ((q.parking_lot_name ≡ lot) × ((is_holiday q.day_type ≡ true) × IsPriced q))
  Paired lot value_error _ = Unit
  Paired lot (ok none) (ok (some q)) = ⊥
  Paired lot (ok (some r)) (ok none) = ⊥
  Paired lot (ok o) value_error = Unit

  -- every rule can price a stay, and a lot has as many for working days as for holidays
  abbrev pub IsPricing : Parsed (List ParsedFeeRule) → Type 0
  IsPricing value_error = Unit
  IsPricing (ok rules) =
      All IsPriced rules
      × ((lot : Text) → count (is_for lot false) rules ≡ count (is_for lot true) rules)

  module _ (float_int : Text → ℕ) where
    basic-Paired :
        (lot : Text) (daily_max unit_minutes unit_fee basic_minutes basic_fee : ℕ)
        → (daily_max == 0) ≡ false
        → (unit_minutes == 0 || unit_fee == 0) ≡ false
        → Paired lot
            (with_basic float_int lot weekday daily_max unit_minutes unit_fee basic_minutes
              basic_fee)
            (with_basic float_int lot holiday daily_max unit_minutes unit_fee basic_minutes
              basic_fee)
    unfolding is_incomplete
    basic-Paired lot daily_max unit_minutes unit_fee basic_minutes basic_fee some_max some_unit =
        elim (Bool-cases (basic_minutes == 0 || basic_fee == 0)) [
          | inl missing ↦ rw missing tt
          | inr given ↦ rw given (
            (refl, (refl, ground (arith, some_max, some_unit, given))),
            (refl, (refl, ground (arith, some_max, some_unit, given))),
          )
        ]

    unit-Paired :
        (lot : Text) (daily_max : ℕ) (basic : Text) (unit_minutes unit_fee : ℕ)
        → (daily_max == 0) ≡ false
        → Paired lot
            (with_unit float_int lot weekday daily_max basic unit_minutes unit_fee)
            (with_unit float_int lot holiday daily_max basic unit_minutes unit_fee)
    unfolding is_incomplete
    unit-Paired lot daily_max basic unit_minutes unit_fee some_max =
        elim (Bool-cases (unit_minutes == 0 || unit_fee == 0)) [
          | inl missing ↦ rw missing tt
          | inr given ↦ elim (Bool-cases (is_empty basic)) [
            | inl absent ↦
                rw (given, absent)
                  (
                    (refl, (refl, ground (arith, some_max, given))),
                    (refl, (refl, ground (arith, some_max, given))),
                  )
            | inr present ↦
                rw (given, present)
                  (basic-Paired lot daily_max unit_minutes unit_fee (parse_hhmm_duration basic)
                    (parse_won_amount float_int basic) some_max given)
          ]
        ]

    build-Paired :
        (lot : Text) (fees maxima : List Text)
        → Paired lot
            (build_incheon_fee_rule float_int lot weekday fees maxima)
            (build_incheon_fee_rule float_int lot holiday fees maxima)
    unfolding build_incheon_fee_rule
    build-Paired lot [] [] = tt
    build-Paired lot [] (m ∷ ms) = tt
    build-Paired lot (f ∷ fs) [] = tt
    build-Paired lot (f ∷ fs) (m ∷ ms) =
        let fees = f ∷ fs in
        let unit_description = first_text (λ t. contains t (codes "초과")) fees in
        elim (Bool-cases (parse_won_amount float_int m == 0)) [
          | inl missing ↦ rw missing tt
          | inr given ↦ rw given (
              unit-Paired lot (parse_won_amount float_int m)
                (first_text (λ t. starts_with t (codes "최초")) fees)
                (parse_hhmm_duration unit_description) (parse_won_amount float_int unit_description)
                given)
        ]

    append-IsPricing :
        (lot : Text) (a b : Parsed (Option ParsedFeeRule)) (rest : Parsed (List ParsedFeeRule))
        → Paired lot a b
        → IsPricing rest
        → IsPricing (append_rule float_int a (append_rule float_int b rest))
    append-IsPricing lot value_error b rest pair h = tt
    append-IsPricing lot (ok none) value_error rest pair h = tt
    append-IsPricing lot (ok (some r)) value_error rest pair h = tt
    append-IsPricing lot (ok none) (ok none) value_error pair h = tt
    append-IsPricing lot (ok none) (ok none) (ok rules) pair h = h
    append-IsPricing lot (ok none) (ok (some q)) rest pair h = absurd pair
    append-IsPricing lot (ok (some r)) (ok none) rest pair h = absurd pair
    append-IsPricing lot (ok (some r)) (ok (some q)) value_error pair h = tt
    append-IsPricing lot (ok (some r)) (ok (some q)) (ok rules) pair h = (
      (pair.0.1.1, (pair.1.1.1, h.0)),
      λ t. rw (pair.0.0, pair.0.1.0, pair.1.0, pair.1.1.0) (ground (arith, h.1 t)),
    )

    lots-IsPricing :
        (fees maxima lots : List Text) (rest : Parsed (List ParsedFeeRule))
        → IsPricing rest
        → IsPricing (lot_rules float_int fees maxima lots rest)
    lots-IsPricing fees maxima [] rest h = h
    lots-IsPricing fees maxima (lot ∷ lots) rest h =
        append-IsPricing lot (build_incheon_fee_rule float_int lot weekday fees maxima)
          (build_incheon_fee_rule float_int lot holiday fees maxima)
          (lot_rules float_int fees maxima lots rest) (build-Paired lot fees maxima)
          (lots-IsPricing fees maxima lots rest h)

    profiles-IsPricing :
        (by_id : Dict Text (List Text)) (ps : List Profile)
        → IsPricing (profile_rules float_int by_id ps)
    unfolding profile_rules
    profiles-IsPricing by_id [] = (tt, λ t. refl)
    profiles-IsPricing by_id (p ∷ ps) =
        lots-IsPricing (or_none (get by_id p.fee_id)) (or_none (get by_id p.max_id)) p.lot_prefixes
          (profile_rules float_int by_id ps) (profiles-IsPricing by_id ps)

    -- Whatever items the airport sends: if they are read without an error, then no rule, once stored for a lot,
    -- is one that a quote refuses as incomplete, and every lot has as many rules for working days as for holidays.
    pub parse_incheon_fee-IsPricing :
        (items : List FeeItem) → IsPricing (parse_incheon_fee float_int items)
    unfolding parse_incheon_fee
    parse_incheon_fee-IsPricing items =
        profiles-IsPricing (descriptions_by_id [] items) incheon_fee_profiles
