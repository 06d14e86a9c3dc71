-- ===== src/Flights/Times/Format.antt =====
-- Times of the clock, written with or without a sign between hour and minute.
use kor_travel_transport.Prelude.{
  ℕ, ◌/◌, ◌<◌, ◌≡◌, refl, ap, ◌∙◌, some, [], ◌∷◌, ◌++◌, arith, ltb, ◌||◌, if-true, if-false,
  Bool-cases, inl, inr,
}
use kor_travel_transport.Prelude.Chars.{Text, backwards}
use kor_travel_transport.Holidays.{is_digit, number}
use kor_travel_transport.Holidays.Dates.{digit, digit-is_digit}
use kor_travel_transport.Flights.Times.{digits_of, last_four, parse_hhmm}

-- two digits
abbrev pub two : ℕ → Text
two n = digit (n / 10) ∷ digit n ∷ []

keep_digit : (n : ℕ) (rest : Text) → digits_of (digit n ∷ rest) ≡ digit n ∷ digits_of rest
keep_digit n rest = if-true _ _ (digit-is_digit n)

two_digits : (n : ℕ) (rest : Text) → digits_of (two n ++ rest) ≡ two n ++ digits_of rest
two_digits n rest =
    keep_digit (n / 10) (digit n ∷ rest) ∙ ap (λ l. digit (n / 10) ∷ l) (keep_digit n rest)

digits-append : (xs ys : Text) → digits_of (xs ++ ys) ≡ digits_of xs ++ digits_of ys
digits-append [] ys = refl
digits-append (x ∷ xs) ys = elim (Bool-cases (is_digit x)) [
  | inl is ↦ rw is (ap (λ l. x ∷ l) (digits-append xs ys))
  | inr not_one ↦ rw not_one (digits-append xs ys)
]

two_value : (n : ℕ) → n < 100 → number 0 (two n) ≡ n
two_value n h = omega arith

hhmm_value : (h m : ℕ) → h < 24 → m < 60 → last_four (backwards (two h ++ two m)) ≡ some (h, m)
unfolding backwards
hhmm_value h m hh hm =
    let eh : number 0 (two h) ≡ h = two_value h (omega (arith, hh)) in
    let em : number 0 (two m) ≡ m = two_value m (omega (arith, hm)) in
    rw (eh, em) (if-false {b = ltb 23 h || ltb 59 m} _ _ (ground (arith, hh, hm)))

-- A time of the day, written in four digits with any text without digits between hour and minute, is
-- read as that time.
pub parse_hhmm-format :
    (h m : ℕ) (between : Text)
    → h < 24
    → m < 60
    → digits_of between ≡ []
    → parse_hhmm (two h ++ (between ++ two m)) ≡ some (h, m)
unfolding parse_hhmm
parse_hhmm-format h m between hh hm blank =
    ap (λ l. last_four (backwards l))
      (two_digits h (between ++ two m)
        ∙ ap (λ l. two h ++ l)
            (digits-append between (two m)
              ∙ ap (λ l. l ++ digits_of (two m)) blank
              ∙ two_digits m []))
    ∙ hhmm_value h m hh hm
