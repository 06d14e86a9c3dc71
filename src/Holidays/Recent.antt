-- ===== src/Holidays/Recent.antt =====
-- `HolidayService.get_recent_holidays`: the last holidays up to a date.
use kor_travel_transport.Prelude.{
  ◌≡◌, ℕ, zero, suc, ◌-◌, Bool, true, false, Option, none, some, List, [], ◌∷◌, ◌==◌, if◌then◌else◌,
  take, ℤ, ◌≤◌, arith, count, length,
}
use kor_travel_transport.Prelude.Sort.{sorted, IsSorted, sorted-IsSorted, count-sorted}
use kor_travel_transport.Holidays.{Date, HolidayItem, date_ltb, date_beq, month_days}
use kor_travel_transport.Holidays.Collapse.{
  collapse_holidays_by_date, collapse_holidays_by_date-count,
}
use kor_travel_transport.Holidays.Service.{Month, Fetched, Cache, HolidayAnswer, get_holidays}

-- the day before; none before 0001-01-01, where Python raises `OverflowError`
abbrev pub day_before : Date → Option Date
day_before d =
    if d.day == 1
    then if d.month == 1
      then if d.year == 1 then none else some (record { year = d.year - 1; month = 12; day = 31 })
      else some
          (record { year = d.year; month = d.month - 1; day = month_days d.year (d.month - 1) })
    else some (record d { day = d.day - 1 })

abbrev pub then_days_before : ℕ → Option Date → Option Date
then_days_before zero d = d
then_days_before (suc n) none = none
then_days_before (suc n) (some d) = then_days_before n (day_before d)

abbrev pub later_first : HolidayItem → HolidayItem → Bool
later_first a b = date_ltb b.local_date a.local_date

-- one item for each date, so that it does not matter how `reverse=True` orders equal dates
abbrev pub recent_items : ℕ → List HolidayItem → List HolidayItem
recent_items limit items = take limit (sorted later_first (collapse_holidays_by_date items))

abbrev pub recent_answer : ℕ → HolidayAnswer × Cache → HolidayAnswer × Cache
recent_answer limit (a, cache) = (record a { items = recent_items limit a.items }, cache)

abbrev pub recent_from :
    Option (ℕ → Month → Fetched)
    → ℤ
    → (ℕ → ℕ)
    → Cache
    → Date
    → ℕ
    → Option Date
    → Option (HolidayAnswer × Cache)
recent_from client seconds now cache end_date limit none = none
recent_from client seconds now cache end_date limit (some start_date) =
    some (recent_answer limit (get_holidays client seconds now cache start_date end_date))

-- `limit` is 8 unless the caller says otherwise, and not negative. none is the `OverflowError`.
pub get_recent_holidays :
    Option (ℕ → Month → Fetched) → ℤ → (ℕ → ℕ) → Cache → Date → ℕ → Option (HolidayAnswer × Cache)
get_recent_holidays client seconds now cache end_date limit =
    recent_from client seconds now cache end_date limit (then_days_before 730 (some end_date))

later_first_asym : (a b : HolidayItem) → later_first a b ≡ true → later_first b a ≡ false
later_first_asym a b h = ground (arith, h)

take-IsSorted :
    (n : ℕ) (xs : List HolidayItem) → IsSorted later_first xs → IsSorted later_first (take n xs)
take-IsSorted zero xs h = tt
take-IsSorted (suc n) [] h = tt
take-IsSorted (suc zero) (x ∷ []) h = tt
take-IsSorted (suc (suc n)) (x ∷ []) h = tt
take-IsSorted (suc zero) (x ∷ y ∷ ys) h = tt
take-IsSorted (suc (suc n)) (x ∷ y ∷ ys) h = (h.0, take-IsSorted (suc n) (y ∷ ys) h.1)

count-take :
    (p : HolidayItem → Bool) (n : ℕ) (xs : List HolidayItem) → count p (take n xs) ≤ count p xs
count-take p zero xs = omega arith
count-take p (suc n) [] = omega arith
count-take p (suc n) (x ∷ xs) = ground (arith, count-take p n xs)

length-take : (n : ℕ) (xs : List HolidayItem) → length (take n xs) ≤ n
length-take zero xs = omega arith
length-take (suc n) [] = omega arith
length-take (suc n) (x ∷ xs) = ground (arith, length-take n xs)

-- The recent holidays go from the latest to the earliest, have each date at most once, and are no
-- more than the limit.
pub recent_items-IsSorted :
    (limit : ℕ) (items : List HolidayItem) (k : Date)
    → IsSorted later_first (recent_items limit items)
      × ((count (λ x. date_beq x.local_date k) (recent_items limit items) ≤ 1)
          × (length (recent_items limit items) ≤ limit))
recent_items-IsSorted limit items k =
    let by_date = collapse_holidays_by_date items in
    let at = λ (x : HolidayItem). date_beq x.local_date k in
    let ordered = sorted later_first by_date in
    let fewer = count-take at limit ordered in
    let alike = count-sorted later_first at by_date in
    let once = collapse_holidays_by_date-count k items in
    (
      take-IsSorted limit ordered (sorted-IsSorted later_first later_first_asym by_date),
      (ground (arith, fewer, alike, once), length-take limit ordered),
    )
