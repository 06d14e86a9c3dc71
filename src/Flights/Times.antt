-- ===== src/Flights/Times.antt =====
-- backend/app/services/flight_status.py: the times of flights, written as hours and minutes or as a whole
-- date. The digits of the providers are those of ASCII.
pub mod Format
use kor_travel_transport.Prelude.{
  ℕ, zero, suc, ◌+◌, ◌-◌, ◌*◌, ◌/◌, Bool, true, false, not, Option, none, some, List, [], ◌∷◌, ◌++◌,
  keep, any, take, length, ltb, leb, ◌==◌, ◌&&◌, ◌||◌, if◌then◌else◌,
}
use kor_travel_transport.Prelude.Chars.{Text, backwards, strip, or_text}
use kor_travel_transport.Clock.{Zone, Aware, day_us, hour_us, minute_us}
use kor_travel_transport.Holidays.{Date, is_digit, number, is_real, month_days, parse_locdate}

-- the digits of a text
abbrev pub digits_of : Text → Text
digits_of value = keep is_digit value

-- hour and minute of four digits in backward order
abbrev pub last_four : Text → Option (ℕ × ℕ)
last_four (d ∷ c ∷ b ∷ a ∷ rest) =
    let hour = number 0 (a ∷ b ∷ []) in
    let minute = number 0 (c ∷ d ∷ []) in
    if ltb 23 hour || ltb 59 minute then none else some (hour, minute)
last_four _ = none

pub parse_hhmm : Text → Option (ℕ × ℕ)
unfolding backwards
parse_hhmm value = last_four (backwards (digits_of value))

-- the days before a month of a year, and `date.toordinal() - 1`
abbrev pub days_before_month : ℕ → ℕ → ℕ
days_before_month y zero = 0
days_before_month y (suc zero) = 0
days_before_month y (suc (suc m)) = days_before_month y (suc m) + month_days y (suc m)

abbrev pub ordinal : Date → ℕ
ordinal d =
    (d.year - 1) * 365
    + (d.year - 1) / 4
    - (d.year - 1) / 100
    + (d.year - 1) / 400
    + days_before_month d.year d.month
    + (d.day - 1)

abbrev pub at_time : Zone → ℕ → ℕ × ℕ → Aware
at_time z day hm = record { zone = z; wall = day * day_us + hm.0 * hour_us + hm.1 * minute_us }

unfoldable pub combine_local_time : ℕ → Text → Zone → Option Aware
unfolding parse_hhmm
combine_local_time local_date time_text z = elim (parse_hhmm time_text) [
  | none ↦ none
  | some hm ↦ some (at_time z local_date hm)
]

-- `_parse_yyyymmdd`
unfoldable pub parse_yyyymmdd : Text → Option ℕ
unfolding parse_locdate
parse_yyyymmdd value = elim (parse_locdate (take 8 (digits_of value))) [
  | none ↦ none
  | some d ↦ some (ordinal d)
]

-- `strptime(digits[:12], "%Y%m%d%H%M")`
abbrev pub dated : Zone → Option Date → Option (ℕ × ℕ) → Option Aware
dated z (some d) (some hm) = some (at_time z (ordinal d) hm)
dated z _ _ = none

-- `digits[-4:]` of four digits or more is read by `parse_hhmm` as the whole of them
unfoldable pub combine_local_datetime_text : Text → ℕ → Zone → Option Aware
unfolding combine_local_time parse_locdate
combine_local_datetime_text value local_date z =
    let digits = digits_of value in
    if leb 12 (length digits)
    then dated z (parse_locdate (take 8 digits)) (last_four (backwards (take 12 digits)))
    else if leb 4 (length digits)
    then combine_local_time local_date digits z
    else none

pub data Direction : Type 0 where
  departure arrival unknown : Direction

abbrev pub upper : ℕ → ℕ
upper c = if leb 97 c && leb c 122 then c - 32 else c

abbrev pub starts_with : Text → Text → Bool
starts_with [] s = true
starts_with (c ∷ cs) [] = false
starts_with (c ∷ cs) (d ∷ ds) = let rest = starts_with cs ds in c == d && rest

-- `needle in s`
abbrev pub contains : Text → Text → Bool
contains needle [] = starts_with needle []
contains needle (c ∷ cs) = let rest = contains needle cs in starts_with needle (c ∷ cs) || rest

abbrev pub uppers : Text → Text
uppers [] = []
uppers (c ∷ cs) = upper c ∷ uppers cs

-- "출발", "도착", "DEPART" and "ARRIV"
abbrev pub departed_word : Text
departed_word = 52636 ∷ 48156 ∷ []

abbrev pub arrived_word : Text
arrived_word = 46020 ∷ 52265 ∷ []

abbrev pub depart : Text
depart = b'D' ∷ b'E' ∷ b'P' ∷ b'A' ∷ b'R' ∷ b'T' ∷ []

abbrev pub arriv : Text
arriv = b'A' ∷ b'R' ∷ b'R' ∷ b'I' ∷ b'V' ∷ []

unfoldable pub normalize_direction : Text → Text → Text → Direction
unfolding strip
normalize_direction io_value status_ko status_en =
    let normalized = uppers (strip io_value) in
    let status_text = uppers (status_ko ++ b' ' ∷ status_en) in
    if starts_with (b'O' ∷ []) normalized
      || (contains departed_word status_text || contains depart status_text)
    then departure
    else if starts_with (b'I' ∷ []) normalized
        || (contains arrived_word status_text || contains arriv status_text)
    then arrival
    else unknown

-- `_build_route_labels`, of the texts of the item
unfoldable pub build_route_labels : (boarding arrived city : Text) → Direction → Text → Text × Text
build_route_labels boarding arrived city arrival airport_code =
    (or_text boarding (or_text city (b'-' ∷ [])), or_text arrived airport_code)
build_route_labels boarding arrived city _ airport_code =
    (or_text boarding airport_code, or_text arrived (or_text city (b'-' ∷ [])))
