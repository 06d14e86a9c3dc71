-- ===== src/Fee/Caps.antt =====
-- What the items of a quote hold: their lengths, and the caps on their fees.
use native.Mathlib.Nat.{zero-add}
use kor_travel_transport.Prelude.{
  ℕ, zero, suc, ◌+◌, ◌-◌, ◌*◌, ◌≤◌, ◌≡◌, refl, ap, Bool, true, false, map, arith, sum, length, All,
  str_eq, if-both, pos, ltb_ℤ, pos_part,
}
use kor_travel_transport.Clock.{minute_us, day_us}
use kor_travel_transport.Fee.{
  FeeRule, BreakdownItem, Visit, ceil_div, rule_at, chunk_fee, cap_fee, breakdown_item,
  resolve_day_type,
}
use kor_travel_transport.Fee.Chunks.{starts, item_at, applied}

abbrev pub minutes : BreakdownItem → ℕ
minutes i = i.duration_minutes

-- a quoted day is not empty, and no longer than 24 hours
abbrev pub FitsDay : BreakdownItem → Type 0
FitsDay i = (1 ≤ i.duration_minutes) × (i.duration_minutes ≤ 1440)

pub items-FitsDay :
    (v : Visit) (exit_at n start : ℕ) → All FitsDay (map (item_at v exit_at) (starts n start))
unfolding breakdown_item
items-FitsDay v exit_at zero start = tt
items-FitsDay v exit_at (suc n) start =
    ((omega arith, omega arith), items-FitsDay v exit_at n (start + day_us))

-- The minutes of the items add up to the minutes of the stay, the last begun one counted whole.
pub sum-minutes :
    (n : ℕ) (v : Visit) (exit_at start : ℕ)
    → start ≤ exit_at
    → n ≡ ceil_div (exit_at - start) day_us
    → sum (map minutes (map (item_at v exit_at) (starts n start)))
      ≡ ceil_div (exit_at - start) minute_us
unfolding breakdown_item
sum-minutes zero v exit_at start le e = omega arith
sum-minutes (suc zero) v exit_at start le e = omega arith
sum-minutes (suc (suc n)) v exit_at start le e =
    omega (arith, sum-minutes (suc n) v exit_at (start + day_us) (omega arith) (omega arith))

cap_fee-le :
    (r : FeeRule) (fee : ℕ) (m : ℕ)
    → ltb_ℤ (pos 0) r.daily_max_fee ≡ true
    → pos_part r.daily_max_fee ≤ m
    → cap_fee r fee ≤ m
unfolding cap_fee
cap_fee-le r fee m p le = rw p (omega arith)

chunk_fee-le :
    (r : FeeRule) (f first : Bool) (d m : ℕ)
    → ltb_ℤ (pos 0) r.daily_max_fee ≡ true
    → pos_part r.daily_max_fee ≤ m
    → chunk_fee r f first d ≤ m
unfolding chunk_fee
chunk_fee-le r true first d m p le = omega arith
chunk_fee-le r false true d m p le = cap_fee-le r _ m p le
chunk_fee-le r false false d m p le = cap_fee-le r _ m p le

-- a positive daily maximum of at most `m`
abbrev pub IsCapped : ℕ → FeeRule → Type 0
IsCapped m r = (ltb_ℤ (pos 0) r.daily_max_fee ≡ true) × (pos_part r.daily_max_fee ≤ m)

rule_at-IsCapped :
    (v : Visit) (at m : ℕ)
    → IsCapped m v.weekday_rule
    → IsCapped m v.holiday_rule
    → IsCapped m (rule_at v at)
unfolding rule_at
rule_at-IsCapped v at m w h =
    if-both (IsCapped m) (str_eq (resolve_day_type v.calendar v.zone at) "holiday") h w

item-le :
    (v : Visit) (exit_at start m : ℕ)
    → IsCapped m v.weekday_rule
    → IsCapped m v.holiday_rule
    → (item_at v exit_at start).applied_fee ≤ m
unfolding breakdown_item
item-le v exit_at start m w h =
    let c = rule_at-IsCapped v start m w h in chunk_fee-le (rule_at v start) _ _ _ m c.0 c.1

pub sum-le :
    (m n : ℕ) (v : Visit) (exit_at start : ℕ)
    → IsCapped m v.weekday_rule
    → IsCapped m v.holiday_rule
    → sum (map applied (map (item_at v exit_at) (starts n start))) ≤ n * m
unfolding breakdown_item
sum-le m zero v exit_at start w h = omega arith
sum-le m (suc n) v exit_at start w h =
    omega (arith, item-le v exit_at start m w h, sum-le m n v exit_at (start + day_us) w h)

pub length-starts : (n start : ℕ) → length (starts n start) ≡ n
length-starts zero start = refl
length-starts (suc n) start = ap suc (length-starts n (start + day_us))

-- On a free visit every item is free.
pub sum_free :
    (n : ℕ) (v : Visit) (exit_at start : ℕ)
    → v.is_free_visit ≡ true
    → sum (map applied (map (item_at v exit_at) (starts n start))) ≡ 0
unfolding breakdown_item
sum_free zero v exit_at start free = refl
sum_free (suc n) v exit_at start free =
    rw free (rw zero-add (sum_free n v exit_at (start + day_us) free))
