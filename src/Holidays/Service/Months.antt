-- ===== src/Holidays/Service/Months.antt =====
-- `_iter_months`.
use kor_travel_transport.Prelude.{
  ℕ, zero, suc, ◌+◌, ◌-◌, ◌*◌, ◌≤◌, ◌≡◌, arith, ◌==◌, ◌&&◌, ◌||◌, leb, ltb, if◌then◌else◌, count,
  Bool-cases, inl, inr,
}
use kor_travel_transport.Holidays.{Date}
use kor_travel_transport.Holidays.Service.{Month, month_beq, months_loop, iter_months}

-- months since the year 0
abbrev pub index : Month → ℕ
index k = 12 * k.0 + k.1

abbrev pub IsMonth : Month → Type 0
IsMonth k = (1 ≤ k.1) × (k.1 ≤ 12)

-- one for a month from `a` to `b`
abbrev pub between : Month → Month → Month → ℕ
between a b k = if leb (index a) (index k) && leb (index k) (index b) then 1 else 0

abbrev next_month : Month → Month
next_month k = if k.1 == 12 then (suc k.0, 1) else (k.0, suc k.1)

index-next : (k : Month) → IsMonth k → index (next_month k) ≡ suc (index k)
index-next k h = ground arith

next-IsMonth : (k : Month) → IsMonth k → IsMonth (next_month k)
next-IsMonth k h = ground arith

loop_goes :
    (c e : Month)
    → IsMonth c
    → IsMonth e
    → (ltb c.0 e.0 || (c.0 == e.0 && leb c.1 e.1)) ≡ leb (index c) (index e)
loop_goes c e hc he = ground arith

same_month : (c k : Month) → IsMonth c → IsMonth k → month_beq c k ≡ (index c == index k)
same_month c k hc hk = ground arith

loop-count :
    (fuel : ℕ) (c e k : Month)
    → IsMonth c
    → IsMonth e
    → IsMonth k
    → suc (index e) ≤ fuel + index c
    → count (λ j. month_beq j k) (months_loop fuel c e) ≡ between c e k
unfolding months_loop
loop-count zero c e k hc he hk enough = ground arith
loop-count (suc fuel) c e k hc he hk enough =
    let rest =
      loop-count fuel (next_month c) e k (next-IsMonth c hc) he hk
        (omega (arith, index-next c hc, enough)) in
    elim (Bool-cases (leb (index c) (index e))) [
      | inl goes ↦
          rw (loop_goes c e hc he, goes, same_month c k hc hk)
            (ground (arith, rest, index-next c hc, goes))
      | inr done ↦ rw (loop_goes c e hc he, done) (ground (arith, done))
    ]

-- The months of a range are each month from the one of its start to the one of its end, once, and no
-- other month.
pub iter_months_once :
    (start_date end_date : Date) (k : Month)
    → IsMonth (start_date.year, start_date.month)
    → IsMonth (end_date.year, end_date.month)
    → IsMonth k
    → count (λ j. month_beq j k) (iter_months start_date end_date)
      ≡ between (start_date.year, start_date.month) (end_date.year, end_date.month) k
unfolding iter_months
iter_months_once start_date end_date k hs he hk =
    loop-count (suc (12 * (suc end_date.year - start_date.year)))
      (start_date.year, start_date.month) (end_date.year, end_date.month) k hs he hk
      (omega (arith, hs, he))
