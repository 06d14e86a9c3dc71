-- ===== src/Fee/Stay.antt =====
-- `calculate_total_fee` against its specification: the stay is cut into days of 24 hours from the
-- entry, each is priced by itself, and the total is the sum.
use native.Mathlib.Nat.{zero-add}
use kor_travel_transport.Prelude.{
  ℕ, ◌+◌, ◌-◌, ◌/◌, ◌≤◌, ◌<◌, ◌≡◌, ◌≢◌, ◌↔◌, refl, ap, sym, ◌∙◌, Bool, true, false, Option, none,
  some, List, [], map, leb, if◌then◌else◌, lt_of_leb-false, arith, sum, ℤ,
}
use kor_travel_transport.Prelude.Dict.{get, string_eq}
use kor_travel_transport.Clock.{Zone, Aware, DateTime, naive, aware, instant, day_us}
use kor_travel_transport.Fee.{
  FeeRule, Result, ok, err, stuck, rule_invalid, rules_missing, exit_not_later, BreakdownItem,
  CalculatedFee, Calendar, visit_of, ceil_div, by_day_type, priced_stay, calculate_total_fee,
}
use kor_travel_transport.Fee.Chunks.{
  starts, item_at, ValidAt, applied, priced, loop-priced, priced_valid, priced_invalid,
  priced_error,
}

lt→leb : {a b : ℕ} → a < b → leb b a ≡ false
lt→leb h = ground arith

ok-injective : {a b : CalculatedFee} → ok a ≡ ok b → a ≡ b
ok-injective h = cc

with_fields :
    (r : CalculatedFee) {items : List BreakdownItem}
    → r.breakdown ≡ items
    → r.total_fee ≡ sum (map applied r.breakdown)
    → ok (record { total_fee = 0 + sum (map applied items); breakdown = items }) ≡ ok r
with_fields r b t = rw (zero-add, ← b, ← t)

-- what a successful pass through the first tests of `calculate_total_fee` has found
tests-inv :
    (late : Bool) (x y : Option FeeRule) (k : FeeRule → FeeRule → Result CalculatedFee)
    {r : CalculatedFee}
    → (if late then err exit_not_later else elim x [
      | none ↦ err rules_missing
      | some w ↦ elim y [ none ↦ err rules_missing | some h ↦ k w h ]
    ])
      ≡ ok r
    → (late ≡ false) × (w : FeeRule) × (x ≡ some w) × (h : FeeRule) × (y ≡ some h)
tests-inv true x y k run = cc
tests-inv false none y k run = cc
tests-inv false (some w) none k run = cc
tests-inv false (some w) (some h) k run = (refl, w, refl, h, refl)

-- the starts of the days of a stay
abbrev pub day_starts : ℕ → ℕ → List ℕ
day_starts entry_at exit_at = starts (ceil_div (exit_at - entry_at) day_us) entry_at

module _ (entry_at exit_at : ℕ) (w h : FeeRule) (c : Calendar) (z : Zone) (grace : Option ℤ) where
  priced_stay_lem :
      entry_at ≤ exit_at
      → priced_stay entry_at exit_at w h c z grace
        ≡ priced
            (visit_of entry_at exit_at w h c z grace)
            exit_at
            (day_starts entry_at exit_at)
            0
            []
  unfolding priced_stay
  priced_stay_lem le =
      loop-priced (ceil_div (exit_at - entry_at) day_us) ((exit_at - entry_at) / day_us + 2)
        (visit_of entry_at exit_at w h c z grace) exit_at entry_at 0 [] (omega arith) le refl

-- A day-by-day quote of the stay: `r` lists one item for each day, all of them under valid rules.
pub record IsQuote (entry exit : Aware) (rules : List FeeRule) (z : Zone) (c : Calendar)
    (grace : Option ℤ) (r : CalculatedFee) : Type 0 where
  pub later : instant entry < instant exit
  pub weekday_rule : FeeRule
  pub holiday_rule : FeeRule
  pub weekday_found : get (by_day_type [] rules) "weekday" ≡ some weekday_rule
  pub holiday_found : get (by_day_type [] rules) "holiday" ≡ some holiday_rule
  pub rules_valid :
      ValidAt
        (visit_of (instant entry) (instant exit) weekday_rule holiday_rule c z grace)
        (day_starts (instant entry) (instant exit))
  pub breakdown :
      r.breakdown
      ≡ map
          (item_at
            (visit_of (instant entry) (instant exit) weekday_rule holiday_rule c z grace)
            (instant exit))
          (day_starts (instant entry) (instant exit))
  pub total : r.total_fee ≡ sum (map applied r.breakdown)

module _ (entry exit : Aware) (rules : List FeeRule) (z : Zone) (c : Calendar)
    (grace : Option ℤ) where
  -- past its tests `calculate_total_fee` prices the days in order
  pub runs :
      (w h : FeeRule)
      → instant entry < instant exit
      → get (by_day_type [] rules) "weekday" ≡ some w
      → get (by_day_type [] rules) "holiday" ≡ some h
      → calculate_total_fee (aware entry) (aware exit) rules z c grace
        ≡ priced
            (visit_of (instant entry) (instant exit) w h c z grace)
            (instant exit)
            (day_starts (instant entry) (instant exit))
            0
            []
  unfolding calculate_total_fee
  runs w h later ew eh =
      rw (lt→leb later, ew, eh)
        (priced_stay_lem (instant entry) (instant exit) w h c z grace (omega arith))

  of_priced :
      (w h : FeeRule) (r : CalculatedFee)
      → instant entry < instant exit
      → get (by_day_type [] rules) "weekday" ≡ some w
      → get (by_day_type [] rules) "holiday" ≡ some h
      → priced
          (visit_of (instant entry) (instant exit) w h c z grace)
          (instant exit)
          (day_starts (instant entry) (instant exit))
          0
          []
        ≡ ok r
      → IsQuote entry exit rules z c grace r
  of_priced w h r later ew eh run =
      let v = visit_of (instant entry) (instant exit) w h c z grace in
      let days = day_starts (instant entry) (instant exit) in
      let valid = priced_invalid days v (instant exit) 0 [] run in
      let whole = ok-injective (sym (priced_valid days v (instant exit) 0 [] valid) ∙ run) in
      record {
        later = later;
        weekday_rule = w;
        holiday_rule = h;
        weekday_found = ew;
        holiday_found = eh;
        rules_valid = valid;
        breakdown = sym (ap (λ (q : CalculatedFee). q.breakdown) whole);
        total = rw (← whole) (zero-add _);
      }

  fails :
      (r : CalculatedFee)
      → calculate_total_fee (aware entry) (aware exit) rules z c grace ≡ ok r
      → (leb (instant exit) (instant entry) ≡ false)
        × (w : FeeRule) × (get (by_day_type [] rules) "weekday" ≡ some w)
        × (h : FeeRule) × (get (by_day_type [] rules) "holiday" ≡ some h)
  unfolding calculate_total_fee
  fails r h =
      tests-inv (leb (instant exit) (instant entry)) (get (by_day_type [] rules) "weekday")
        (get (by_day_type [] rules) "holiday")
        (λ w h'. priced_stay (instant entry) (instant exit) w h' c z grace) h

  pub quote :
      (r : CalculatedFee)
      → calculate_total_fee (aware entry) (aware exit) rules z c grace ≡ ok r
      → IsQuote entry exit rules z c grace r
  quote r run =
      let (good, w, ew, h, eh) = fails r run in
      let later : instant entry < instant exit = ground arith in
      of_priced w h r later ew eh (sym (runs w h later ew eh) ∙ run)

  quote_runs :
      (r : CalculatedFee)
      → IsQuote entry exit rules z c grace r
      → calculate_total_fee (aware entry) (aware exit) rules z c grace ≡ ok r
  quote_runs r q =
      runs q.weekday_rule q.holiday_rule q.later q.weekday_found q.holiday_found
      ∙ priced_valid (day_starts (instant entry) (instant exit))
          (visit_of (instant entry) (instant exit) q.weekday_rule q.holiday_rule c z grace)
          (instant exit) 0 [] q.rules_valid
      ∙ with_fields r q.breakdown q.total

-- A successful call lists one item for each day of 24 hours from the entry, under valid rules, each
-- priced by itself, and its total is the sum; and exactly such quotes are returned.
pub calculate_total_fee_iff :
    (entry exit : Aware) (rules : List FeeRule) (z : Zone) (c : Calendar) (grace : Option ℤ)
    (r : CalculatedFee)
    → (calculate_total_fee (aware entry) (aware exit) rules z c grace ≡ ok r)
      ↔ IsQuote entry exit rules z c grace r
calculate_total_fee_iff entry exit rules z c grace r =
    (quote entry exit rules z c grace r, quote_runs entry exit rules z c grace r)

tests-err :
    (late : Bool) (x y : Option FeeRule) (k : FeeRule → FeeRule → Result CalculatedFee)
    → ((w h : FeeRule) → late ≡ false → k w h ≢ err stuck)
    → (if late then err exit_not_later else elim x [
      | none ↦ err rules_missing
      | some w ↦ elim y [ none ↦ err rules_missing | some h ↦ k w h ]
    ])
      ≢ err stuck
tests-err true x y k ends run = cc
tests-err false none y k ends run = cc
tests-err false (some w) none k ends run = cc
tests-err false (some w) (some h) k ends run = ends w h refl run

-- On every input the loop ends: the fuel of the model is never used up.
pub calculate_total_fee_ends :
    (entry exit : DateTime) (rules : List FeeRule) (z : Zone) (c : Calendar) (grace : Option ℤ)
    → calculate_total_fee entry exit rules z c grace ≢ err stuck
unfolding calculate_total_fee
calculate_total_fee_ends (naive _) exit rules z c grace run = cc
calculate_total_fee_ends (aware entry) (naive _) rules z c grace run = cc
calculate_total_fee_ends (aware entry) (aware exit) rules z c grace run =
    tests-err (leb (instant exit) (instant entry)) (get (by_day_type [] rules) "weekday")
      (get (by_day_type [] rules) "holiday")
      (λ w h. priced_stay (instant entry) (instant exit) w h c z grace)
      (λ w h later priced_run.
        let e : stuck ≡ rule_invalid =
          priced_error (day_starts (instant entry) (instant exit))
            (visit_of (instant entry) (instant exit) w h c z grace) (instant exit) 0 []
            (sym (
                priced_stay_lem (instant entry) (instant exit) w h c z grace
                  (omega (arith, lt_of_leb-false _ _ later)))
              ∙ priced_run) in
        cc)
      run
