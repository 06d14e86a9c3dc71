-- ===== src/Holidays/Service.antt =====
-- backend/app/services/holidays.py: the responses, `_iter_months`, and `HolidayService` with its cache of
-- months.
pub mod Months
pub mod Cache
pub mod Range
use kor_travel_transport.Prelude.{
  ℕ, zero, suc, ◌+◌, ◌-◌, ◌*◌, ◌≡◌, ◌↔◌, arith, Bool, true, false, not, Option, none, some, List,
  [], ◌∷◌, ◌++◌, any, all, keep, ltb, leb, ◌==◌, ◌&&◌, ◌||◌, if◌then◌else◌, String, str_eq, max, ℤ,
  pos_part, length,
}
use kor_travel_transport.Prelude.Dict.{Eq, Dict, get, put}
use kor_travel_transport.Holidays.{
  Date, HolidayItem, Fields, parse_holiday_fields, deduplicate_holidays, date_ltb, unique_items,
}

-- A document: nothing, a list of raw items, or an envelope with its result code and message. An item
-- that is not a mapping is none.
pub data Body : Type 0 where
  empty : Body
  raw : List (Option Fields) → Body
  enveloped : (result_code result_message : String) → List (Option Fields) → Body

pub data Fetched : Type 0 where
  response : (source : String) → Body → Fetched
  failed : Fetched

abbrev pub item_of : Option Fields → Option HolidayItem
item_of none = none
item_of (some f) = parse_holiday_fields f

-- the loop on the items of a response: those that were read, and whether one was not
read_items : List (Option Fields) → List HolidayItem × Bool
read_items [] = ([], false)
read_items (f ∷ fs) =
    let rest = read_items fs in
    elim (item_of f) [ none ↦ (rest.0, true) | some item ↦ (item ∷ rest.0, rest.1) ]

read_response : List (Option Fields) → List HolidayItem × Option String
unfolding read_items
read_response fs =
    let found = read_items fs in
    (
      deduplicate_holidays found.0,
      if found.1 then some "holiday API error: incomplete calendar rows" else none,
    )

-- the code is empty, "00" or "0"
abbrev pub is_success_code : String → Bool
is_success_code code = str_eq code "" || (str_eq code "00" || str_eq code "0")

parse_holiday_response : Body → List HolidayItem × Option String
unfolding read_response
parse_holiday_response empty = ([], some "holiday API error: empty response")
parse_holiday_response (raw fs) = read_response fs
parse_holiday_response (enveloped code message fs) =
    if is_success_code code then read_response fs else ([], some message)

pub record LookupResult : Type 0 where
  pub source : String
  pub status : String
  pub errors : List String
  pub items : List HolidayItem

-- a month of the calendar
abbrev pub Month : Type 0
Month = ℕ × ℕ

abbrev pub month_beq : Month → Month → Bool
month_beq a b = a.0 == b.0 && a.1 == b.1

pub month_beq_iff : (a b : Month) → (month_beq a b ≡ true) ↔ (a ≡ b)
month_beq_iff a b = ground arith

instance abbrev pub month_eq : Eq Month
month_eq = record { beq = month_beq; beq_iff = month_beq_iff }

-- The `while` loop of `_iter_months`, from the first of a month; two months from the same year on take
-- at most twelve rounds for each year.
pub months_loop : ℕ → Month → Month → List Month
months_loop zero cursor end_month = []
months_loop (suc fuel) (y, m) end_month =
    let rest = months_loop fuel (if m == 12 then (suc y, 1) else (y, suc m)) end_month in
    if ltb y end_month.0 || (y == end_month.0 && leb m end_month.1) then (y, m) ∷ rest else []

pub iter_months : Date → Date → List Month
unfolding months_loop
iter_months start_date end_date =
    months_loop (suc (12 * (suc end_date.year - start_date.year)))
      (start_date.year, start_date.month) (end_date.year, end_date.month)

-- `expires_at` and the result
pub record Entry : Type 0 where
  pub expires_at : ℕ
  pub result : LookupResult

abbrev pub Cache : Type 0
Cache = Dict Month Entry

abbrev pub in_month : Month → HolidayItem → Bool
in_month k item = item.local_date.year == k.0 && item.local_date.month == k.1

abbrev pub with_error : String → List HolidayItem → Option String → LookupResult
with_error source items none = record {
  source = source;
  status = "success";
  errors = [];
  items = items;
}
with_error source items (some e) = record {
  source = source;
  status = "upstream_error";
  errors = e ∷ [];
  items = items;
}

-- the `try` statement of `_get_month`
pub month_result : Month → Fetched → LookupResult
unfolding parse_holiday_response
month_result k failed = record {
  source = "kasi_holiday_info";
  status = "upstream_error";
  errors = "holiday API unreadable" ∷ [];
  items = [];
}
month_result k (response source body) =
    let (items, error) = parse_holiday_response body in
    with_error source items
      (if all (in_month k) items then error else some "holiday API error: response month mismatch")

-- `cached and cached[0] > current_time`
abbrev pub fresh : ℕ → Option Entry → Option LookupResult
fresh now none = none
fresh now (some e) = if ltb now e.expires_at then some e.result else none

abbrev pub stored : ℕ → ℤ → Cache → Month → LookupResult → LookupResult × Cache
stored now seconds cache k r =
    (r, put cache k (record { expires_at = now + pos_part seconds; result = r }))

abbrev pub cached_or : Cache → LookupResult × Cache → Option LookupResult → LookupResult × Cache
cached_or cache asked none = asked
cached_or cache asked (some r) = (r, cache)

-- `_get_month`, at a time in seconds. `fetch_month` is the client's.
pub get_month : (Month → Fetched) → ℤ → ℕ → Cache → Month → LookupResult × Cache
unfolding month_result
get_month fetch_month seconds now cache k =
    cached_or cache (stored now seconds cache k (month_result k (fetch_month k)))
      (fresh now (get cache k))

-- `start_date <= item.local_date <= end_date`
abbrev pub in_range : Date → Date → HolidayItem → Bool
in_range start end item =
    item.is_holiday && (not (date_ltb item.local_date start) && not (date_ltb end item.local_date))

-- what the loop over the months gathers
pub record Gathered : Type 0 where
  pub items : List HolidayItem
  pub errors : List String
  pub sources : List String

abbrev pub gather : Date → Date → LookupResult → Gathered → Gathered
gather start end r g = record {
  items = keep (in_range start end) r.items ++ g.items;
  errors = r.errors ++ g.errors;
  sources = r.source ∷ g.sources;
}

-- The loop over the months. The client and the clock may answer each call in another way: they depend
-- on the number of months that are left.
pub gather_months :
    (ℕ → Month → Fetched) → ℤ → (ℕ → ℕ) → Date → Date → Cache → List Month → Gathered × Cache
unfolding get_month
gather_months fetch_month seconds now start end cache [] =
    (record { items = []; errors = []; sources = [] }, cache)
gather_months fetch_month seconds now start end cache (k ∷ ks) =
    let (r, cache') = get_month (fetch_month (length ks)) seconds (now (length ks)) cache k in
    let (g, cache'') = gather_months fetch_month seconds now start end cache' ks in
    (gather start end r g, cache'')

abbrev pub status_of : List String → List String → String
status_of (e ∷ es) sources = "upstream_error"
status_of [] (s ∷ ss) =
    if all (λ x. str_eq x "sample_holiday_info") (s ∷ ss) then "sample" else "success"
status_of [] [] = "success"

pub record HolidayAnswer : Type 0 where
  pub sources : List String
  pub status : String
  pub errors : List String
  pub items : List HolidayItem

abbrev pub nothing : String → List String → HolidayAnswer
nothing status errors = record { sources = []; status = status; errors = errors; items = [] }

-- `get_holidays`; the client is none where no service key is set
pub get_holidays :
    Option (ℕ → Month → Fetched) → ℤ → (ℕ → ℕ) → Cache → Date → Date → HolidayAnswer × Cache
unfolding gather_months iter_months
get_holidays client seconds now cache start_date end_date =
    if date_ltb end_date start_date then (nothing "success" [], cache) else elim client [
      | none ↦ (nothing "config_error" ("service key missing" ∷ []), cache)
      | some fetch_month ↦
          let (g, cache') =
            gather_months fetch_month seconds now start_date end_date cache
              (iter_months start_date end_date) in
          (
            record {
              sources = g.sources;
              status = status_of g.errors g.sources;
              errors = g.errors;
              items = deduplicate_holidays g.items;
            },
            cache',
          )
    ]
