-- ===== src/Holidays.antt =====
-- backend/app/services/holidays.py: the holiday calendar. Texts are lists of code points. What the
-- client fetched comes as the document that json or ElementTree made of it; a call that raised is
-- `failed`. The cache is a dict that the operations pass on.
pub mod Dates
pub mod Unique
pub mod Service
pub mod Collapse
pub mod Recent
use kor_travel_transport.Prelude.{
  ℕ, zero, suc, ◌+◌, ◌-◌, ◌*◌, ◌/◌, ◌%◌, ◌≡◌, ◌↔◌, arith, Bool, true, false, not, Option, none,
  some, List, [], ◌∷◌, ◌++◌, any, all, keep, length, ltb, leb, ◌==◌, ◌&&◌, ◌||◌, if◌then◌else◌,
  String, str_eq,
}
use kor_travel_transport.Prelude.Dict.{Eq, Dict, get, put}
use kor_travel_transport.Prelude.Chars.{Text, strip, or_text, text_ltb, text_beq}
use kor_travel_transport.Prelude.Sort.{sorted}

pub record Date : Type 0 where
  pub year : ℕ
  pub month : ℕ
  pub day : ℕ

pub record HolidayItem : Type 0 where
  pub local_date : Date
  pub name : Text
  pub is_holiday : Bool

abbrev pub is_leap : ℕ → Bool
is_leap y = y % 4 == 0 && (not (y % 100 == 0) || y % 400 == 0)

abbrev pub month_days : ℕ → ℕ → ℕ
month_days y m =
    if m == 2
    then (if is_leap y then 29 else 28)
    else if m == 4 || m == 6 || m == 9 || m == 11
    then 30
    else 31

-- the dates of `datetime.date`
abbrev pub is_real : Date → Bool
is_real d =
    leb 1 d.year
    && leb d.year 9999
    && leb 1 d.month
    && leb d.month 12
    && leb 1 d.day
    && leb d.day (month_days d.year d.month)

-- an item of a response, empty where a key is missing
pub record Fields : Type 0 where
  pub date_name : Text
  pub date_name_snake : Text
  pub locdate : Text
  pub is_holiday_flag : Text

abbrev pub is_digit : ℕ → Bool
is_digit c = leb 48 c && leb c 57

abbrev pub number : ℕ → Text → ℕ
number n [] = n
number n (c ∷ cs) = number (n * 10 + (c - 48)) cs

-- `strptime(locdate, "%Y%m%d")` on eight digits
unfoldable pub parse_locdate : Text → Option Date
parse_locdate (a ∷ b ∷ c ∷ d ∷ e ∷ f ∷ g ∷ h ∷ []) =
    let date : Date = record {
      year = number 0 (a ∷ b ∷ c ∷ d ∷ []);
      month = number 0 (e ∷ f ∷ []);
      day = number 0 (g ∷ h ∷ []);
    } in
    if all is_digit (a ∷ b ∷ c ∷ d ∷ e ∷ f ∷ g ∷ h ∷ []) && is_real date then some date else none
parse_locdate _ = none

-- the flag in capitals: is it "Y", or "N"
abbrev pub flag_of : Text → Option Bool
flag_of (c ∷ []) =
    if c == b'Y' || c == b'y'
    then some true
    else if c == b'N' || c == b'n'
    then some false
    else none
flag_of _ = none

abbrev pub fields_item : Text → Option Date → Option Bool → Option HolidayItem
fields_item [] date flag = none
fields_item (c ∷ cs) (some date) (some flag) =
    some (record { local_date = date; name = c ∷ cs; is_holiday = flag })
fields_item (c ∷ cs) _ _ = none

unfoldable pub parse_holiday_fields : Fields → Option HolidayItem
unfolding strip parse_locdate
parse_holiday_fields f =
    fields_item (strip (or_text f.date_name f.date_name_snake)) (parse_locdate (strip f.locdate))
      (flag_of (strip f.is_holiday_flag))

-- order of the dates and of texts, as Python compares them
abbrev pub date_ltb : Date → Date → Bool
date_ltb a b =
    ltb a.year b.year
    || (a.year == b.year && (ltb a.month b.month || (a.month == b.month && ltb a.day b.day)))

abbrev pub date_beq : Date → Date → Bool
date_beq a b = a.year == b.year && (a.month == b.month && a.day == b.day)

abbrev pub item_before : HolidayItem → HolidayItem → Bool
item_before a b =
    date_ltb a.local_date b.local_date
    || (date_beq a.local_date b.local_date && text_ltb a.name b.name)

-- the same `(local_date, name)`
abbrev pub same_key : HolidayItem → HolidayItem → Bool
same_key a b = date_beq a.local_date b.local_date && text_beq a.name b.name

-- the loop of `_deduplicate_holidays`; `seen` holds the items whose keys the set holds
pub unique_items : List HolidayItem → List HolidayItem → List HolidayItem
unique_items seen [] = []
unique_items seen (x ∷ xs) =
    let skipped = unique_items seen xs in
    let kept = unique_items (x ∷ seen) xs in
    if any (λ y. same_key y x) seen then skipped else x ∷ kept

pub deduplicate_holidays : List HolidayItem → List HolidayItem
unfolding unique_items
deduplicate_holidays items = unique_items [] (sorted item_before items)
