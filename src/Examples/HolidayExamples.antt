-- ===== src/Examples/HolidayExamples.antt =====
-- A calendar with one holiday in May.
use kor_travel_transport.Prelude.{
  ◌≡◌, All, List, refl, true, some, [], ◌∷◌, if◌then◌else◌, any, count, pos,
}
use kor_travel_transport.Holidays.{Date, date_beq, Fields, HolidayItem, parse_locdate}
use kor_travel_transport.Holidays.Service.{Month, Fetched, response, raw, month_beq, get_holidays}
use kor_travel_transport.Holidays.Dates.{format_locdate, parse_locdate-format}
use kor_travel_transport.Holidays.Service.Range.{IsTrue, direct_answer, get_holidays-direct}
use kor_travel_transport.Holidays.Collapse.{collapse_holidays_by_date}
use kor_travel_transport.Holidays.Collapse.Names.{IsJoined, collapse_holidays_by_date-names}
use kor_travel_transport.Holidays.Recent.{then_days_before}

abbrev may_fifth : Date
may_fifth = record { year = 2026; month = 5; day = 5 }

abbrev june_first : Date
june_first = record { year = 2026; month = 6; day = 1 }

abbrev children : HolidayItem
children = record { local_date = may_fifth; name = b'A' ∷ []; is_holiday = true }

abbrev children_fields : Fields
children_fields = record {
  date_name = b' ' ∷ b'A' ∷ [];
  date_name_snake = [];
  locdate = format_locdate may_fifth;
  is_holiday_flag = b'y' ∷ [];
}

abbrev kasi : Month → Fetched
kasi k =
    response "kasi_holiday_info"
      (if month_beq k (2026, 5) then raw (some children_fields ∷ []) else raw [])

parse_locdate-format_example : parse_locdate (format_locdate may_fifth) ≡ some may_fifth
parse_locdate-format_example = parse_locdate-format may_fifth refl

abbrev recovery_day : HolidayItem
recovery_day = record { local_date = june_first; name = b'B' ∷ []; is_holiday = true }

abbrev buddha : HolidayItem
buddha = record { local_date = may_fifth; name = b'C' ∷ []; is_holiday = true }

abbrev spring : List HolidayItem
spring = children ∷ recovery_day ∷ buddha ∷ []

collapse_holidays_by_date-names_example :
    (count (λ x. date_beq x.local_date may_fifth) (collapse_holidays_by_date spring)
      ≡ (if any (λ x. date_beq x.local_date may_fifth) spring then 1 else 0))
    × All (IsJoined spring) (collapse_holidays_by_date spring)
collapse_holidays_by_date-names_example = collapse_holidays_by_date-names may_fifth spring

-- two years, which have no leap day in them
then_days_before_test :
    then_days_before 730 (some may_fifth) ≡ some (record may_fifth { year = 2024 })
then_days_before_test = refl

get_holidays-direct_example :
    ((get_holidays (some (λ n. kasi)) (pos 60) (λ n. 0) [] may_fifth june_first).0
      ≡ direct_answer kasi may_fifth june_first)
    × IsTrue kasi (get_holidays (some (λ n. kasi)) (pos 60) (λ n. 0) [] may_fifth june_first).1
get_holidays-direct_example = get_holidays-direct kasi (pos 60) (λ n. 0) [] may_fifth june_first tt
