-- ===== src/Flights/Service.antt =====
-- backend/app/services/flight_status.py: `FlightStatusService`, its answers and its cache. The client gives
-- the typed flights of the gateway, or items that were parsed, or raises.
pub mod Kept
use kor_travel_transport.Prelude.{
  ℕ, zero, suc, ◌+◌, ◌≡◌, ◌↔◌, ap, ap₂, arith, Bool, true, false, not, Option, none, some, List, [],
  ◌∷◌, map, ltb, ◌==◌, ◌&&◌, ◌||◌, if◌then◌else◌, ℤ, pos_part, String, ==_iff,
}
use kor_travel_transport.Prelude.Dict.{Eq, Dict, get, put}
use kor_travel_transport.Prelude.Sort.{sorted}
use kor_travel_transport.Prelude.Chars.{Text, or_text, text_beq, text_beq_iff, text_ltb}
use kor_travel_transport.Flights.{Identity, Flight, Merged, deduplicate_codeshare_flights}

-- a flight of the gateway, with empty texts for missing ones
pub record GatewayFlight : Type 0 where
  pub airport_code : Text
  pub direction : Text
  pub flight_id : Text
  pub master_flight_id : Text
  pub airline_name : Text
  pub scheduled_at : Option ℕ
  pub estimated_at : Option ℕ
  pub departure_airport_name : Text
  pub departure_airport_code : Text
  pub arrival_airport_name : Text
  pub arrival_airport_code : Text
  pub status_korean : Text
  pub status_english : Text
  pub line_type : Text

abbrev pub or_time : Option ℕ → ℕ → ℕ
or_time none t = t
or_time (some e) t = e

abbrev pub dash : Text
dash = b'-' ∷ []

-- the body of the loop; none is the FlightStatusUpstreamError
abbrev pub gateway_item : GatewayFlight → Text → Option ℕ → Option Flight
gateway_item g [] scheduled = none
gateway_item g (c ∷ cs) none = none
gateway_item g (c ∷ cs) (some scheduled) = some (record {
  airport_code = g.airport_code;
  direction = g.direction;
  flight_number = c ∷ cs;
  airline = g.airline_name;
  scheduled_at = scheduled;
  estimated_at = g.estimated_at;
  marker_at = or_time g.estimated_at scheduled;
  origin_airport = or_text g.departure_airport_name (or_text g.departure_airport_code dash);
  destination_airport = or_text g.arrival_airport_name (or_text g.arrival_airport_code dash);
  status = or_text g.status_korean g.status_english;
  line_type = g.line_type;
  codeshare_identity = some (record {
    airport = g.airport_code;
    direction = g.direction;
    scheduled = scheduled;
    master_flight = or_text g.master_flight_id (c ∷ cs);
  });
})

gateway_items : List GatewayFlight → Option (List Flight)
gateway_items [] = some []
gateway_items (g ∷ gs) =
    let rest = gateway_items gs in
    elim (gateway_item g g.flight_id g.scheduled_at) [
      | none ↦ none
      | some f ↦ elim rest [ none ↦ none | some fs ↦ some (f ∷ fs) ]
    ]

pub data Reply : Type 0 where
  gateway : Option (List GatewayFlight) → Reply
  parsed : (source : String) → (is_sample : Bool) → List Flight → Option String → Reply
  rate_limit_error : Reply
  upstream_failure : Reply

pub data Status : Type 0 where
  success sample disabled config_error rate_limited upstream_error : Status

pub record Payload : Type 0 where
  pub source : String
  pub status : Status
  pub items : List Merged

-- `items.sort(key=...)`
abbrev pub shown_before : Merged → Merged → Bool
shown_before a b =
    ltb a.flight.marker_at b.flight.marker_at
    || (a.flight.marker_at == b.flight.marker_at
        && text_ltb a.flight.flight_number b.flight.flight_number)

shown_items : List Flight → List Merged
unfolding deduplicate_codeshare_flights
shown_items items = sorted shown_before (deduplicate_codeshare_flights items)

abbrev pub base_payload : Status → Payload
base_payload status = record { source = "kac_flight_status"; status = status; items = [] }

reply_payload : Reply → Payload
unfolding gateway_items shown_items
reply_payload (gateway none) = base_payload upstream_error
reply_payload (gateway (some flights)) = elim (gateway_items flights) [
  | none ↦ base_payload upstream_error
  | some items ↦ record {
    source = "kac_flight_status_gateway";
    status = success;
    items = shown_items items;
  }
]
reply_payload (parsed source is_sample items none) = record {
  source = source;
  status = if is_sample then sample else success;
  items = shown_items items;
}
reply_payload (parsed source is_sample items (some error)) = record {
  source = source;
  status = upstream_error;
  items = shown_items items;
}
reply_payload rate_limit_error = base_payload rate_limited
reply_payload upstream_failure = base_payload upstream_error

pub record FlightSettings : Type 0 where
  pub enable_flight_status_markers : Bool
  pub flight_status_cache_seconds : ℤ
  pub upstream_rate_limit_backoff_seconds : ℤ

-- an airport code in capitals, and a day
abbrev pub Request : Type 0
Request = Text × ℕ

-- `_fetch_status`; the client is none where no key is set
pub fetch_status : FlightSettings → Option (Request → Reply) → Request → Payload
unfolding reply_payload
fetch_status settings none q =
    if not settings.enable_flight_status_markers
    then record { source = "disabled"; status = disabled; items = [] }
    else base_payload config_error
fetch_status settings (some client) q =
    if not settings.enable_flight_status_markers
    then record { source = "disabled"; status = disabled; items = [] }
    else reply_payload (client q)

abbrev pub request_beq : Request → Request → Bool
request_beq a b = text_beq a.0 b.0 && a.1 == b.1

pub request_beq_iff : (a b : Request) → (request_beq a b ≡ true) ↔ (a ≡ b)
request_beq_iff a b = (
  (λ h.
      let first : text_beq a.0 b.0 ≡ true = ground arith in
      let second : a.1 ≡ b.1 = ground (arith, h) in
      ap₂ (λ (x : Text) (y : ℕ). (x, y)) ((text_beq_iff a.0 b.0).0 first) second),
  (λ e.
      let first = (text_beq_iff a.0 b.0).1 (ap (λ (r : Request). r.0) e) in
      let second = (==_iff a.1 b.1).1 (ap (λ (r : Request). r.1) e) in
      ground (arith, first, second)),
)

instance abbrev pub request_eq : Eq Request
request_eq = record { beq = request_beq; beq_iff = request_beq_iff }

pub record Entry : Type 0 where
  pub expires_at : ℕ
  pub payload : Payload

abbrev pub Cache : Type 0
Cache = Dict Request Entry

-- how long an answer is kept; none is not at all
abbrev pub kept_seconds : FlightSettings → Status → Option ℕ
kept_seconds settings rate_limited = some (pos_part settings.upstream_rate_limit_backoff_seconds)
kept_seconds settings upstream_error = none
kept_seconds settings _ = some (pos_part settings.flight_status_cache_seconds)

abbrev pub store : Option ℕ → ℕ → Cache → Request → Payload → Payload × Cache
store none now cache q payload = (payload, cache)
store (some seconds) now cache q payload =
    (payload, put cache q (record { expires_at = now + seconds; payload = payload }))

abbrev pub fresh : ℕ → Option Entry → Option Payload
fresh now none = none
fresh now (some e) = if ltb now e.expires_at then some e.payload else none

abbrev pub cached_or : Cache → Payload × Cache → Option Payload → Payload × Cache
cached_or cache fetched none = fetched
cached_or cache fetched (some payload) = (payload, cache)

pub get_status : FlightSettings → Option (Request → Reply) → ℕ → Cache → Request → Payload × Cache
unfolding fetch_status
get_status settings client now cache q =
    let payload = fetch_status settings client q in
    cached_or cache (store (kept_seconds settings payload.status) now cache q payload)
      (fresh now (get cache q))
