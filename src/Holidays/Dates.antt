-- ===== src/Holidays/Dates.antt =====
-- `locdate`, a date in eight digits.
use kor_travel_transport.Prelude.{
  ℕ, ◌+◌, ◌/◌, ◌%◌, ◌≤◌, ◌≡◌, refl, sym, Bool, true, none, some, [], ◌∷◌, arith, all, ◌&&◌,
  if◌then◌else◌, if-true, subst,
}
use kor_travel_transport.Prelude.Chars.{Text}
use kor_travel_transport.Holidays.{Date, is_real, is_digit, number, parse_locdate}

-- `strftime("%Y%m%d")`
abbrev pub digit : ℕ → ℕ
digit n = 48 + n % 10

abbrev pub format_locdate : Date → Text
format_locdate d =
    digit (d.year / 1000)
    ∷ digit (d.year / 100)
    ∷ digit (d.year / 10)
    ∷ digit d.year
    ∷ digit (d.month / 10)
    ∷ digit d.month
    ∷ digit (d.day / 10)
    ∷ digit d.day
    ∷ []

digits_year :
    (y : ℕ)
    → y ≤ 9999
    → number 0 (digit (y / 1000) ∷ digit (y / 100) ∷ digit (y / 10) ∷ digit y ∷ []) ≡ y
digits_year y h = omega arith

digits_two : (n : ℕ) → n ≤ 31 → number 0 (digit (n / 10) ∷ digit n ∷ []) ≡ n
digits_two n h = omega arith

pub digit-is_digit : (n : ℕ) → is_digit (digit n) ≡ true
digit-is_digit n = ground arith

real_bounds : (d : Date) → is_real d ≡ true → (d.year ≤ 9999) × (d.month ≤ 31) × (d.day ≤ 31)
real_bounds d h = ground arith

both : {a b : Bool} → a ≡ true → b ≡ true → (a && b) ≡ true
both h k = ground arith

same_date :
    (d : Date) {y m n : ℕ}
    → y ≡ d.year
    → m ≡ d.month
    → n ≡ d.day
    → record { year = y; month = m; day = n } ≡ d
same_date d ey em en = rw (ey, em, en) refl

eight : (d : Date) → all is_digit (format_locdate d) ≡ true
eight d =
    rw
      (
        digit-is_digit (d.year / 1000),
        digit-is_digit (d.year / 100),
        digit-is_digit (d.year / 10),
        digit-is_digit d.year,
        digit-is_digit (d.month / 10),
        digit-is_digit d.month,
        digit-is_digit (d.day / 10),
        digit-is_digit d.day,
      )
      refl

-- The eight digits of every date of the calendar are read as that date.
pub parse_locdate-format : (d : Date) → is_real d ≡ true → parse_locdate (format_locdate d) ≡ some d
unfolding parse_locdate
parse_locdate-format d real =
    let (hy, hm, hd) = real_bounds d real in
    let e = same_date d (digits_year d.year hy) (digits_two d.month hm) (digits_two d.day hd) in
    subst
      (λ (x : Date).
        (if all is_digit (format_locdate d) && is_real x then some x else none) ≡ some d)
      (sym e) (if-true _ _ (both (eight d) real))
