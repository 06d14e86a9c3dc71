-- ===== src/Clock/Align.antt =====
-- `align_to_interval`, `align_to_ten_minutes` and `seconds_until_next_seoul_midnight`.
use native.Mathlib.Nat.{mod-lt, mod-le, div-add-mod', mul-mod_left}
use kor_travel_transport.Prelude.{
  ℕ, ◌+◌, ◌-◌, ◌*◌, ◌%◌, ◌/◌, ◌≤◌, ◌<◌, ◌≡◌, refl, ap, ◌∙◌, none, some, ℤ, pos, arith, ◌≤ℤ◌, ◌⊎◌,
  ◌↔◌,
}
use kor_travel_transport.Clock.{
  Zone, utc, seoul, Aware, DateTime, aware, instant, astimezone, minute_us, second_us, hour_us,
  ensure_tz, to_seoul, minute_of, replace_minute, align_to_ten_minutes, align_to_interval,
  seconds_until_next_seoul_midnight, date_of,
}

-- a wall clock set back to the start of its slot of `n` minutes
abbrev slot : ℕ → ℕ → ℕ
slot w n = replace_minute w (minute_of w - minute_of w % n)

slot_bounds : (w n : ℕ) → 1 ≤ n → (slot w n ≤ w) × (w < slot w n + n * minute_us)
slot_bounds w n h = (
  omega (arith, mod-lt (minute_of w) h, mod-le (minute_of w) n),
  omega (arith, mod-lt (minute_of w) h, mod-le (minute_of w) n),
)

slot-hour : (w n : ℕ) → (slot w n % hour_us ≡ (minute_of w - minute_of w % n) * minute_us)
slot-hour w n = omega arith

floor-mod : (a n : ℕ) → (a - a % n) % n ≡ 0
floor-mod a n =
    let e : a - a % n ≡ a / n * n = omega (arith, div-add-mod' a n) in rw e (mul-mod_left (a / n) n)

minute_of-slot : (w n : ℕ) → 1 ≤ n → minute_of (slot w n) % n ≡ 0
minute_of-slot w n h =
    let e : minute_of (slot w n) ≡ minute_of w - minute_of w % n =
      omega (arith, mod-le (minute_of w) n) in
    rw e (floor-mod (minute_of w) n)

-- the result of a successful call
aligned : DateTime → ℕ → Zone → Aware
aligned t n z =
    astimezone (record { zone = z; wall = slot (astimezone (ensure_tz t z) z).wall n }) utc

align_to_interval_pos :
    (t : DateTime) (n : ℕ) (z : Zone)
    → 1 ≤ n
    → n ≤ 60
    → align_to_interval t (pos n) z ≡ some (aligned t n z)
unfolding align_to_interval aligned
align_to_interval_pos t n z h k = ground arith

aligned_bounds :
    (t : DateTime) (n : ℕ) (z : Zone)
    → 1 ≤ n
    → (instant (aligned t n z) ≤ instant (ensure_tz t z))
      × (instant (ensure_tz t z) < instant (aligned t n z) + n * minute_us)
unfolding aligned
aligned_bounds t n utc h = omega (arith, slot_bounds (astimezone (ensure_tz t utc) utc).wall n h)
aligned_bounds t n seoul h =
    omega (arith, slot_bounds (astimezone (ensure_tz t seoul) seoul).wall n h)

slot-slot : (w n : ℕ) → 1 ≤ n → slot (slot w n) n ≡ slot w n
slot-slot w n h = omega (arith, minute_of-slot w n h)

-- what a successful call returns
pub record IsSlotOf (t : DateTime) (n : ℕ) (z : Zone) (r : Aware) : Type 0 where
  not_later : instant r ≤ instant (ensure_tz t z)
  within : instant (ensure_tz t z) < instant r + n * minute_us
  on_slot : minute_of (astimezone r z).wall % n ≡ 0
  whole_minute : (astimezone r z).wall % minute_us ≡ 0
  again : align_to_interval (aware r) (pos n) z ≡ some r

aligned_on_slot :
    (t : DateTime) (n : ℕ) (z : Zone)
    → 1 ≤ n
    → ((astimezone (aligned t n z) z).wall ≡ slot (astimezone (ensure_tz t z) z).wall n)
unfolding aligned
aligned_on_slot t n utc h = omega arith
aligned_on_slot t n seoul h =
    omega (arith, mod-le (minute_of (astimezone (ensure_tz t seoul) seoul).wall) n)

aligned-aligned :
    (t : DateTime) (n : ℕ) (z : Zone) → 1 ≤ n → aligned (aware (aligned t n z)) n z ≡ aligned t n z
unfolding aligned ensure_tz
aligned-aligned t n z h =
    ap (λ x. astimezone (record { zone = z; wall = x }) utc)
      (ap (λ x. slot x n) (aligned_on_slot t n z h) ∙ slot-slot _ n h)

-- For an interval of 1 to 60 minutes `align_to_interval` returns: the a whole minute of the
-- zone's wall clock, not after the given time, whose minute of the hour is a multiple of the interval;
-- it is less than the interval earlier, and aligning it again gives it back.
pub align_to_interval_slot :
    (t : DateTime) (n : ℕ) (z : Zone)
    → 1 ≤ n
    → n ≤ 60
    → (r : Aware) × (align_to_interval t (pos n) z ≡ some r) × IsSlotOf t n z r
align_to_interval_slot t n z h k = (
  aligned t n z,
  align_to_interval_pos t n z h k,
  record {
    not_later = (aligned_bounds t n z h).0;
    within = (aligned_bounds t n z h).1;
    on_slot = rw (aligned_on_slot t n z h) (minute_of-slot _ n h);
    whole_minute = rw (aligned_on_slot t n z h) (omega arith);
    again =
        rw (align_to_interval_pos (aware (aligned t n z)) n z h k)
          (ap some (aligned-aligned t n z h));
  },
)

-- `align_to_interval` raises exactly for an interval of at most 0 or at least 61 minutes.
pub align_to_interval_error :
    (t : DateTime) (interval : ℤ) (z : Zone)
    → (align_to_interval t interval z ≡ none) ↔ ((interval ≤ℤ pos 0) ⊎ (pos 61 ≤ℤ interval))
unfolding align_to_interval
align_to_interval_error t interval z = ground arith

-- `align_to_ten_minutes` is `align_to_interval` at ten minutes in Seoul.
pub align_to_ten_minutes_lem :
    (t : DateTime) → align_to_interval t (pos 10) seoul ≡ some (align_to_ten_minutes t)
unfolding align_to_interval align_to_ten_minutes
align_to_ten_minutes_lem t = refl

-- The wait for the next midnight in Seoul is 1 to 86400 seconds, falls short of midnight by no more
-- than a second, and does not pass it by more than a second.
pub midnight_wait :
    (t : DateTime)
    → let w = (to_seoul t).wall in
      let r = seconds_until_next_seoul_midnight t in
      (1 ≤ r)
      × (r ≤ 86400)
      × (date_of (w + (r - 1) * second_us) ≡ date_of w)
      × (date_of (w + (r + 1) * second_us) ≡ date_of w + 1)
unfolding seconds_until_next_seoul_midnight
midnight_wait t = omega arith
