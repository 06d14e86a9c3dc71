-- ===== src/Flights/Items.antt =====
-- backend/app/services/flight_status.py: the items of the three providers' responses. An item is given by
-- the texts that the code reads, empty where they are missing; the dict texts come stripped, as the
-- first that is not empty of the keys that the code tries.
use kor_travel_transport.Prelude.{ℕ, Option, none, some, [], ◌∷◌}
use kor_travel_transport.Prelude.Chars.{Text, strip, or_text}
use kor_travel_transport.Clock.{Zone, Aware, instant}
use kor_travel_transport.Flights.{Flight}
use kor_travel_transport.Flights.Times.{
  Direction, departure, arrival, unknown, combine_local_time, combine_local_datetime_text,
  parse_yyyymmdd, normalize_direction, build_route_labels, uppers,
}

abbrev pub direction_text : Direction → Text
direction_text departure = b'd' ∷ b'e' ∷ b'p' ∷ b'a' ∷ b'r' ∷ b't' ∷ b'u' ∷ b'r' ∷ b'e' ∷ []
direction_text arrival = b'a' ∷ b'r' ∷ b'r' ∷ b'i' ∷ b'v' ∷ b'a' ∷ b'l' ∷ []
direction_text unknown = b'u' ∷ b'n' ∷ b'k' ∷ b'n' ∷ b'o' ∷ b'w' ∷ b'n' ∷ []

pub record ItemTexts : Type 0 where
  pub flight_number : Text
  pub flight_date : Text
  pub scheduled : Text
  pub estimated : Text
  pub io : Text
  pub status_ko : Text
  pub status_en : Text
  pub boarding : Text
  pub arrived : Text
  pub city : Text
  pub airline : Text
  pub line : Text

abbrev pub instant_of : Option Aware → Option ℕ
instant_of none = none
instant_of (some t) = some (instant t)

-- `estimated_at or scheduled_at`
abbrev pub marker : Option Aware → Aware → ℕ
marker none scheduled = instant scheduled
marker (some t) scheduled = instant t

-- the row, once its number and its scheduled time are known
abbrev pub flight_row :
    ItemTexts → Text → Direction → Text × Text → Option Aware → Text → Option Aware → Option Flight
flight_row i airport_code direction route estimated [] scheduled = none
flight_row i airport_code direction route estimated (c ∷ cs) none = none
flight_row i airport_code direction route estimated (c ∷ cs) (some scheduled) = some (record {
  airport_code = airport_code;
  direction = direction_text direction;
  flight_number = c ∷ cs;
  airline = i.airline;
  scheduled_at = instant scheduled;
  estimated_at = instant_of estimated;
  marker_at = marker estimated scheduled;
  origin_airport = route.0;
  destination_airport = route.1;
  status = or_text i.status_ko i.status_en;
  line_type = i.line;
  codeshare_identity = none;
})

unfoldable parse_flight_item : ItemTexts → Text → ℕ → Zone → Option Flight
unfolding combine_local_time normalize_direction build_route_labels
parse_flight_item i airport_code local_date z =
    let direction = normalize_direction i.io i.status_ko i.status_en in
    flight_row i airport_code direction
      (build_route_labels i.boarding i.arrived i.city direction airport_code)
      (combine_local_time local_date i.estimated z) i.flight_number
      (combine_local_time local_date i.scheduled z)

abbrev pub or_date : Option ℕ → ℕ → ℕ
or_date none d = d
or_date (some e) d = e

-- the labels of the detail items: the airport itself on its own side, "-" on the other
abbrev pub detail_route : ItemTexts → Direction → Text → Text × Text
detail_route i departure airport = (or_text i.boarding airport, or_text i.arrived (b'-' ∷ []))
detail_route i arrival airport = (or_text i.boarding (b'-' ∷ []), or_text i.arrived airport)
detail_route i unknown airport = (or_text i.boarding (b'-' ∷ []), or_text i.arrived (b'-' ∷ []))

unfoldable parse_kac_detail_flight_item : ItemTexts → Text → ℕ → Zone → Option Flight
unfolding combine_local_time normalize_direction parse_yyyymmdd
parse_kac_detail_flight_item i airport_code local_date z =
    let flight_date = or_date (parse_yyyymmdd i.flight_date) local_date in
    let direction = normalize_direction i.io i.status_ko i.status_en in
    flight_row i (uppers airport_code) direction (detail_route i direction (uppers airport_code))
      (combine_local_time flight_date i.estimated z) i.flight_number
      (combine_local_time flight_date i.scheduled z)

-- "인천"
abbrev pub incheon : Text
incheon = 51064 ∷ 52380 ∷ []

-- `direction` is that of the section; the texts come as they are and are stripped here
unfoldable parse_incheon_flight_item : ItemTexts → Direction → ℕ → Zone → Option Flight
unfolding combine_local_datetime_text strip
parse_incheon_flight_item i direction local_date z =
    let remote = or_text (strip i.city) (b'-' ∷ []) in
    let texts : ItemTexts = record i {
      airline = strip i.airline;
      status_ko = strip i.status_ko;
      status_en = [];
      line = strip i.line;
    } in
    flight_row texts (b'I' ∷ b'C' ∷ b'N' ∷ []) direction
      (elim direction [
        | departure ↦ (incheon, remote)
        | arrival ↦ (remote, incheon)
        | unknown ↦ (remote, incheon)
      ])
      (combine_local_datetime_text i.estimated local_date z) (strip i.flight_number)
      (combine_local_datetime_text i.scheduled local_date z)
