-- ===== src/Fee/Monotone.antt =====
-- A longer stay is never cheaper.
use native.Mathlib.Nat.{mul-le-mul_right, le-div_iff_mul-le, div-mul-le_self, le_trans}
use mathlib.Core.Path.{ap₂}
use kor_travel_transport.Prelude.{
  some-inj, ℕ, zero, suc, ◌+◌, ◌-◌, ◌*◌, ◌/◌, ◌≤◌, ◌≡◌, refl, ap, sym, ◌∙◌, Bool, true, false,
  Option, some, List, [], map, min, max, arith, sum, ℤ, pos, pos_part, negsuc, ◌==◌,
}
use kor_travel_transport.Prelude.Dict.{get, string_eq}
use kor_travel_transport.Clock.{Zone, Aware, aware, instant, day_us}
use kor_travel_transport.Fee.{
  FeeRule, ok, CalculatedFee, Calendar, Visit, ceil_div, visit_of, is_within, rule_at, by_day_type,
  chunk_minutes, chunk_fee, cap_fee, breakdown_item, calculate_total_fee, or_else,
}
use kor_travel_transport.Fee.Chunks.{starts, item_at, applied}
use kor_travel_transport.Fee.Stay.{IsQuote, quote}

div_mono : (n : ℕ) {a b : ℕ} → a ≤ b → a / n ≤ b / n
div_mono zero h = omega arith
div_mono (suc n) {a} {b} h =
    (le-div_iff_mul-le (omega arith)).1 (le_trans (div-mul-le_self a (suc n)) h)

ceil_div_mono : (n : ℕ) {a b : ℕ} → a ≤ b → ceil_div a n ≤ ceil_div b n
ceil_div_mono n h = div_mono n (omega arith)

cap_fee_mono : (r : FeeRule) {a b : ℕ} → a ≤ b → cap_fee r a ≤ cap_fee r b
unfolding cap_fee
cap_fee_mono r h = ground arith

units_mono : (n u : ℕ) {a b : ℕ} → a ≤ b → ceil_div a n * u ≤ ceil_div b n * u
units_mono n u h = mul-le-mul_right u (ceil_div_mono n h)

-- a longer chunk costs no less
chunk_fee_mono :
    (r : FeeRule) (first : Bool) (a b : ℕ)
    → a ≤ b
    → chunk_fee r false first a ≤ chunk_fee r false first b
unfolding chunk_fee
chunk_fee_mono r false a b h =
    cap_fee_mono r (units_mono (pos_part r.unit_minutes) (pos_part r.unit_fee) h)
chunk_fee_mono r true a b h = cap_fee_mono r (
    ground (
      arith,
      units_mono (max (pos_part r.unit_minutes) 1) (pos_part r.unit_fee)
          {a = a - pos_part r.basic_minutes} {b = b - pos_part r.basic_minutes} (omega arith),
    ))

waived_mono :
    (r : FeeRule) (f g first : Bool) (a b : ℕ)
    → (g ≡ true → f ≡ true)
    → a ≤ b
    → chunk_fee r f first a ≤ chunk_fee r g first b
unfolding chunk_fee
waived_mono r true g first a b free h = omega arith
waived_mono r false true first a b free h = cc (free refl)
waived_mono r false false first a b free h = chunk_fee_mono r first a b h

-- the sum over the first `n` days of a visit that ends at `exit_at`
abbrev days_total : Visit → ℕ → ℕ → ℕ → ℕ
days_total v exit_at n start = sum (map applied (map (item_at v exit_at) (starts n start)))

module _ (v : Visit) (f g : Bool) (free : g ≡ true → f ≡ true) {e e' : ℕ} (longer : e ≤ e') where
  item_mono :
      (start : ℕ)
      → (item_at (record v { is_free_visit = f }) e start).applied_fee
        ≤ (item_at (record v { is_free_visit = g }) e' start).applied_fee
  unfolding breakdown_item
  item_mono start =
      waived_mono (rule_at (record v { is_free_visit = f }) start) f g (start == v.entry_at)
        (chunk_minutes start (min (start + day_us) e))
        (chunk_minutes start (min (start + day_us) e')) free (omega arith)

  days_mono :
      (n n' start : ℕ)
      → n ≤ n'
      → days_total (record v { is_free_visit = f }) e n start
        ≤ days_total (record v { is_free_visit = g }) e' n' start
  days_mono zero n' start h = omega arith
  days_mono (suc n) zero start h = absurd (omega arith)
  days_mono (suc n) (suc n') start h =
      omega (arith, item_mono start, days_mono n n' (start + day_us) (omega arith))

is_within_mono : (free : ℤ) (a b : ℕ) → a ≤ b → is_within b free ≡ true → is_within a free ≡ true
unfolding is_within
is_within_mono (pos n) a b le h = ground arith
is_within_mono (negsuc n) a b le h = cc

module _ (entry_at : ℕ) (z : Zone) (c : Calendar) (grace : Option ℤ) (w h : FeeRule) where
  arrival : Visit
  arrival = record {
    calendar = c;
    zone = z;
    weekday_rule = w;
    holiday_rule = h;
    is_free_visit = false;
    entry_at = entry_at;
  }

  totals_mono :
      (x x' : ℕ)
      → x ≤ x'
      → days_total (visit_of entry_at x w h c z grace) x (ceil_div (x - entry_at) day_us) entry_at
        ≤ days_total
            (visit_of entry_at x' w h c z grace)
            x'
            (ceil_div (x' - entry_at) day_us)
            entry_at
  unfolding visit_of arrival
  totals_mono x x' le =
      let free = or_else grace (rule_at arrival entry_at).free_minutes in
      days_mono arrival (is_within (x - entry_at) free) (is_within (x' - entry_at) free)
        (is_within_mono free (x - entry_at) (x' - entry_at) (omega arith)) le
        (ceil_div (x - entry_at) day_us) (ceil_div (x' - entry_at) day_us) entry_at (omega arith)

module _ (entry : Aware) (rules : List FeeRule) (z : Zone) (c : Calendar) (grace : Option ℤ)
    (w h : FeeRule) (weekday_found : get (by_day_type [] rules) "weekday" ≡ some w)
    (holiday_found : get (by_day_type [] rules) "holiday" ≡ some h) where
  quote_total :
      (exit : Aware) (r : CalculatedFee) (q : IsQuote entry exit rules z c grace r)
      → r.total_fee
        ≡ days_total
            (visit_of (instant entry) (instant exit) w h c z grace)
            (instant exit)
            (ceil_div (instant exit - instant entry) day_us)
            (instant entry)
  quote_total exit r q =
      q.total
      ∙ ap (λ b. sum (map applied b)) q.breakdown
      ∙ ap₂
          (λ x y.
            days_total (visit_of (instant entry) (instant exit) x y c z grace) (instant exit)
              (ceil_div (instant exit - instant entry) day_us) (instant entry))
          (some-inj (sym q.weekday_found ∙ weekday_found))
          (some-inj (sym q.holiday_found ∙ holiday_found))

-- Of two priced stays with the same entry, the one that ends later costs no less.
pub total_fee_mono :
    (entry exit exit' : Aware) (rules : List FeeRule) (z : Zone) (c : Calendar) (grace : Option ℤ)
    (r r' : CalculatedFee)
    → instant exit ≤ instant exit'
    → calculate_total_fee (aware entry) (aware exit) rules z c grace ≡ ok r
    → calculate_total_fee (aware entry) (aware exit') rules z c grace ≡ ok r'
    → r.total_fee ≤ r'.total_fee
total_fee_mono entry exit exit' rules z c grace r r' le run run' =
    let q = quote entry exit rules z c grace r run in
    let q' = quote entry exit' rules z c grace r' run' in
    omega (
      arith,
      quote_total entry rules z c grace q.weekday_rule q.holiday_rule q.weekday_found
          q.holiday_found exit r q,
      quote_total entry rules z c grace q.weekday_rule q.holiday_rule q.weekday_found
          q.holiday_found exit' r' q',
      totals_mono (instant entry) z c grace q.weekday_rule q.holiday_rule (instant exit)
          (instant exit') le,
    )
