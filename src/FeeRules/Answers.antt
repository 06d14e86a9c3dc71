-- ===== src/FeeRules/Answers.antt =====
-- What `quote_parking_fee` answers.
use mathlib.Core.Bool.{false≢true}
use kor_travel_transport.Prelude.{
  ℕ, ◌<◌, ◌≡◌, ◌≢◌, refl, sym, subst, ◌∙◌, ◌⊎◌, eq_iff, Bool, true, false, not, Option, none, some,
  List, [], ◌∷◌, any, arith, All, String, str_eq, Bool-cases, inl, inr, ◌&&◌, ℤ, if-both, if-cases,
  length, ◌==◌,
}
use kor_travel_transport.Prelude.Dict.{get, string_eq}
use kor_travel_transport.Clock.{Zone, Aware, aware, seoul, instant}
use kor_travel_transport.Fee.{
  FeeRule, ok, CalculatedFee, Calendar, Visit, visit_of, rule_at, rule_is_invalid, resolve_day_type,
  by_day_type, calculate_total_fee,
}
use kor_travel_transport.Fee.Chunks.{ValidAt, priced_valid}
use kor_travel_transport.Fee.Stay.{runs, day_starts}
use kor_travel_transport.Fee.Bounds.{by_day_type-All}
use kor_travel_transport.FeeRules.Select.{last_for, get-by_day_type}
use kor_travel_transport.FeeRules.{
  Request, HolidayLookup, Settings, Lot, Answer, unavailable, has_both_day_types, is_incomplete,
  select_fee_rules, follows_calendar, with_calendar, with_rules, quote_parking_fee, calculated,
  no_calendar, resolved_lot, lot_ids, grace_of,
}

last_for-some :
    (k : String) (r : FeeRule) (rules : List FeeRule)
    → (s : FeeRule) × (last_for k (some r) rules ≡ some s)
last_for-some k r [] = (r, refl)
last_for-some k r (x ∷ xs) = elim (Bool-cases (str_eq x.day_type k)) [
  | inl same ↦ rw same (last_for-some k x xs)
  | inr other ↦ rw other (last_for-some k r xs)
]

last_for-any :
    (k : String) (rules : List FeeRule)
    → any (λ r. str_eq r.day_type k) rules ≡ true
    → (s : FeeRule) × (last_for k none rules ≡ some s)
last_for-any k [] h = cc
last_for-any k (x ∷ xs) h = elim (Bool-cases (str_eq x.day_type k)) [
  | inl same ↦ rw same (last_for-some k x xs)
  | inr other ↦ rw other (last_for-any k xs (rw other at h))
]

found :
    (k : String) (rules : List FeeRule)
    → any (λ r. str_eq r.day_type k) rules ≡ true
    → (s : FeeRule) × (get (by_day_type [] rules) k ≡ some s)
unfolding get
found k rules h = let (s, e) = last_for-any k rules h in (s, get-by_day_type k [] rules ∙ e)

valid_days :
    (v : Visit) (days : List ℕ)
    → rule_is_invalid v.weekday_rule ≡ false
    → rule_is_invalid v.holiday_rule ≡ false
    → ValidAt v days
unfolding rule_at
valid_days v [] w h = tt
valid_days v (d ∷ ds) w h = (
  if-both (λ r. rule_is_invalid r ≡ false) (str_eq (resolve_day_type v.calendar v.zone d) "holiday")
      h w,
  valid_days v ds w h,
)

-- Rules of both day types, all of them valid, price every stay that does not end before it begins.
pub valid_rules_price :
    (entry exit : Aware) (rules : List FeeRule) (z : Zone) (c : Calendar) (grace : Option ℤ)
    → instant entry < instant exit
    → has_both_day_types rules ≡ true
    → All (λ r. rule_is_invalid r ≡ false) rules
    → (r : CalculatedFee) × (calculate_total_fee (aware entry) (aware exit) rules z c grace ≡ ok r)
unfolding has_both_day_types get visit_of
valid_rules_price entry exit rules z c grace later both valid =
    let (w, ew) = found "weekday" rules (ground arith) in
    let (h, eh) = found "holiday" rules (ground arith) in
    let at = by_day_type-All (λ r. rule_is_invalid r ≡ false) [] rules (λ k x e. cc) valid in
    let v = visit_of (instant entry) (instant exit) w h c z grace in
    let days = day_starts (instant entry) (instant exit) in
    (
      _,
      runs entry exit rules z c grace w h later ew eh
          ∙ priced_valid days v (instant exit) 0 []
              (valid_days v days (at "weekday" w ew) (at "holiday" h eh)),
    )

module _ (q : Request) (settings : Settings) (lookup lookup' : ℕ → ℕ → HolidayLookup)
    (fixed : follows_calendar q.airport_code ≡ false) where
  fixed_calendar :
      (rules : List FeeRule) (l : Option Lot)
      → with_calendar q lookup rules l ≡ with_calendar q lookup' rules l
  unfolding with_calendar
  fixed_calendar rules l = rw fixed

  fixed_rules :
      (rules : List FeeRule) (l : Option Lot)
      → with_rules q settings lookup rules l ≡ with_rules q settings lookup' rules l
  unfolding with_rules
  fixed_rules rules l = rw (fixed_calendar rules l)

-- At an airport with one rate for every day the answer does not depend on the holiday service.
pub fixed_rate_ignores_holidays :
    (q : Request) (settings : Settings) (lookup lookup' : ℕ → ℕ → HolidayLookup)
    (find_lot : ℕ → Option Lot) (lot : Option Lot) (stored : List FeeRule)
    → follows_calendar q.airport_code ≡ false
    → quote_parking_fee q settings lookup find_lot lot stored
      ≡ quote_parking_fee q settings lookup' find_lot lot stored
unfolding quote_parking_fee
fixed_rate_ignores_holidays q settings lookup lookup' find_lot lot stored fixed = ground (
  arith,
  fixed_rules q settings lookup lookup' fixed (select_fee_rules stored q.parking_lot_id).0
      (resolved_lot find_lot lot (lot_ids (select_fee_rules stored q.parking_lot_id).0)),
)

complete-valid : (r : FeeRule) → is_incomplete r ≡ false → rule_is_invalid r ≡ false
unfolding is_incomplete rule_is_invalid
complete-valid r h = ground arith

all_complete :
    (rules : List FeeRule)
    → any is_incomplete rules ≡ false
    → All (λ r. rule_is_invalid r ≡ false) rules
all_complete [] h = tt
all_complete (r ∷ rs) h = (complete-valid r (ground arith), all_complete rs (ground arith))

calculated_ok :
    (q : Request) (rules : List FeeRule) (lot : Option Lot) (c : Calendar) (sample : Bool)
    → instant q.entry_at < instant q.exit_at
    → has_both_day_types rules ≡ true
    → All (λ r. rule_is_invalid r ≡ false) rules
    → calculated q rules lot c sample ≢ unavailable "invalid_rules"
unfolding calculated
calculated_ok q rules lot c sample later both valid e =
    let (r, run) =
      valid_rules_price q.entry_at q.exit_at rules seoul c (some (grace_of q.airport_code lot))
        later both valid in
    cc (rw (run, calculated) at e)

abbrev Priceable : Answer → Type 0
Priceable a = a ≢ unavailable "invalid_rules"

unavailable-injective : {a b : String} → unavailable a ≡ unavailable b → a ≡ b
unavailable-injective e = cc

refused : (reason : String) → str_eq reason "invalid_rules" ≡ false → Priceable (unavailable reason)
refused reason differs e =
    let same : reason ≡ "invalid_rules" = unavailable-injective e in
    false≢true (sym differs ∙ (eq_iff reason "invalid_rules").1 same)

selection_error-lem :
    (rules : List FeeRule) (lot : Option ℕ)
    → ((select_fee_rules rules lot).1 ≡ none)
      ⊎ ((select_fee_rules rules lot).1 ≡ some "parking_lot_required")
unfolding select_fee_rules
selection_error-lem rules (some l) = inl refl
selection_error-lem rules none = ground arith

past_selection :
    (o : Option String) (a : Answer)
    → (o ≡ none) ⊎ (o ≡ some "parking_lot_required")
    → Priceable a
    → Priceable (elim o [ some selection_error ↦ unavailable selection_error | none ↦ a ])
past_selection none a h p = p
past_selection (some s) a (inl e) p = cc
past_selection (some s) a (inr e) p =
    subst (λ o. Priceable (elim o [ some x ↦ unavailable x | none ↦ a ])) (sym e)
      (refused "parking_lot_required" refl)

incheon_calendar :
    (q : Request) (lookup : ℕ → ℕ → HolidayLookup) (rules : List FeeRule) (lot : Option Lot)
    → follows_calendar q.airport_code ≡ false
    → instant q.entry_at < instant q.exit_at
    → has_both_day_types rules ≡ true
    → any is_incomplete rules ≡ false
    → Priceable (with_calendar q lookup rules lot)
unfolding with_calendar
incheon_calendar q lookup rules lot fixed later both complete = rw fixed (
    calculated_ok q rules lot no_calendar (any (λ r. r.raw_item.seeded) rules) later both
      (all_complete rules complete))

incheon_with_rules :
    (q : Request) (settings : Settings) (lookup : ℕ → ℕ → HolidayLookup) (rules : List FeeRule)
    (lot : Option Lot)
    → str_eq q.airport_code "ICN" ≡ true
    → follows_calendar q.airport_code ≡ false
    → instant q.entry_at < instant q.exit_at
    → Priceable (with_rules q settings lookup rules lot)
unfolding with_rules
incheon_with_rules q settings lookup rules lot icn fixed later =
    if-cases Priceable (length rules == 0)
      (λ _.
        if-both Priceable _ (refused "rules_unavailable" refl) (refused "collection_disabled" refl))
      λ _.
        if-cases Priceable (not (has_both_day_types rules)) (λ _. refused "incomplete_rules" refl)
          λ both.
            if-cases Priceable (str_eq q.airport_code "ICN" && any is_incomplete rules)
              (λ _. refused "incomplete_rules" refl)
              λ complete. if-both Priceable _ (refused "policy_unverified" refl) (
                if-both Priceable _ (refused "vehicle_unsupported" refl) (
                  incheon_calendar q lookup rules lot fixed later (ground arith)
                    (rw icn at complete)))

-- At Incheon every stay that ends after it begins is priced or refused for another reason: the
-- calculator never finds the selected rules invalid.
pub incheon_never_invalid :
    (q : Request) (settings : Settings) (lookup : ℕ → ℕ → HolidayLookup) (find_lot : ℕ → Option Lot)
    (lot : Option Lot) (stored : List FeeRule)
    → q.airport_code ≡ "ICN"
    → instant q.entry_at < instant q.exit_at
    → quote_parking_fee q settings lookup find_lot lot stored ≢ unavailable "invalid_rules"
unfolding quote_parking_fee
incheon_never_invalid q settings lookup find_lot lot stored icn later =
    let selection = select_fee_rules stored q.parking_lot_id in
    if-both Priceable _ (refused "vehicle_unsupported" refl) (
      past_selection selection.1 _ (selection_error-lem stored q.parking_lot_id) (
        incheon_with_rules q settings lookup selection.0
          (resolved_lot find_lot lot (lot_ids selection.0)) (rw icn) (rw icn) later))
