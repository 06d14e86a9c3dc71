-- ===== src/Examples/FlightExamples.antt =====
-- Two flights that share a plane.
use kor_travel_transport.Prelude.{
  ◌≡◌, refl, true, Option, none, some, List, [], ◌∷◌, ◌++◌, All, any, arith, pos, ◌||◌,
}
use kor_travel_transport.Prelude.Dict.{get}
use kor_travel_transport.Prelude.Chars.{strip, text_beq}
use kor_travel_transport.Flights.{Flight, deduplicate_codeshare_flights}
use kor_travel_transport.Flights.Codeshare.{shows, deduplicate_codeshare_flights-shows}
use kor_travel_transport.Flights.Times.{parse_hhmm}
use kor_travel_transport.Flights.Times.Format.{two, parse_hhmm-format}
use kor_travel_transport.Flights.Service.{
  FlightSettings, Request, Reply, rate_limit_error, get_status, Payload, Cache,
}
use kor_travel_transport.Flights.Service.Kept.{Again, lasting, get_status-Again}

abbrev own_plane : Flight
own_plane = record {
  airport_code = b'G' ∷ [];
  direction = [];
  flight_number = b'K' ∷ b'1' ∷ [];
  airline = b'K' ∷ [];
  scheduled_at = 60;
  estimated_at = none;
  marker_at = 60;
  origin_airport = b'G' ∷ [];
  destination_airport = b'C' ∷ [];
  status = [];
  line_type = [];
  codeshare_identity = some (record {
    airport = b'G' ∷ [];
    direction = [];
    scheduled = 60;
    master_flight = b'K' ∷ b'1' ∷ [];
  });
}

abbrev shared_plane : Flight
shared_plane = record own_plane { flight_number = b'D' ∷ b'7' ∷ []; airline = b'D' ∷ [] }

abbrev two_flights : List Flight
two_flights = own_plane ∷ shared_plane ∷ []

deduplicate_codeshare_flights-shows_example :
    All
      (λ f.
        (text_beq (strip f.flight_number) []
          || any (shows (strip f.flight_number)) (deduplicate_codeshare_flights two_flights))
        ≡ true)
      two_flights
deduplicate_codeshare_flights-shows_example = deduplicate_codeshare_flights-shows two_flights

parse_hhmm-format_example : parse_hhmm (two 8 ++ ((b':' ∷ []) ++ two 30)) ≡ some (8, 30)
parse_hhmm-format_example = parse_hhmm-format 8 30 (b':' ∷ []) (omega arith) (omega arith) refl

abbrev usual : FlightSettings
usual = record {
  enable_flight_status_markers = true;
  flight_status_cache_seconds = pos 60;
  upstream_rate_limit_backoff_seconds = pos 600;
}

abbrev limited : Option (Request → Reply)
limited = some (λ q. rate_limit_error)

-- a rate limit, and a call nine minutes later to a client without a key
abbrev limited_answer : Payload × Cache
limited_answer = get_status usual limited 0 [] (b'G' ∷ [], 7)

get_status-Again_example :
    Again usual none 0 599
      (b'G' ∷ [], 7)
      (lasting usual limited_answer.0.status)
      limited_answer
      (get_status usual none 599 limited_answer.1 (b'G' ∷ [], 7))
get_status-Again_example =
    get_status-Again usual limited none 0 599 [] (b'G' ∷ [], 7) (omega arith) (unfold get in refl)
