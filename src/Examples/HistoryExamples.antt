-- ===== src/Examples/HistoryExamples.antt =====
-- A history of two rows, and a request for the whole of it after a refresh.
use kor_travel_transport.Prelude.{ℕ, ◌≡◌, ◌≤◌, refl, true, none, [], ◌∷◌, length}
use kor_travel_transport.Prelude.Chars.{Text, codes, text_beq}
use kor_travel_transport.History.{ParkingHistorySnapshot, from_rows}
use kor_travel_transport.History.Encoding.{Coding, gzip, response_encoding}
use kor_travel_transport.History.Cache.{
  HistoryCache, Fingerprint, refresh_once, response_body, encoded_response,
}
use kor_travel_transport.History.Cache.Truth.{start, next, refreshed, response_body-direct}

abbrev two_rows : ℕ → ParkingHistorySnapshot
two_rows address = from_rows 0 2 (
    record { observed_at = 5; code = codes "GMP"; parking_lot_id = 1; json = codes "1" }
    ∷ record { observed_at = 9; code = codes "ICN"; parking_lot_id = 2; json = codes "2" }
    ∷ [])

abbrev packed : Coding → Text → Text
packed coding body = b'z' ∷ body

abbrev counters : Fingerprint
counters = record { current_max_id = 2; inserted = 2; updated = 0; deleted = 0 }

abbrev empty : HistoryCache
empty = record {
  snapshot = none;
  validated_at = 0;
  last_fingerprint = none;
  prepared_responses = [];
}

abbrev filled : HistoryCache
filled = refresh_once two_rows packed (λ t. true) (λ c. c) empty counters counters 7 3 10

response_encoding_test : response_encoding (λ t. true) (codes "gzip;q=0.5, deflate") ≡ gzip
unfolding response_encoding text_beq
response_encoding_test = refl

response_body-direct_example :
    ((response_body two_rows packed (λ t. true) (λ c. c) filled 7 3 none none (codes "gzip")).0
      ≡ encoded_response two_rows packed (λ t. true) 7 3 none none (codes "gzip"))
    × (length filled.prepared_responses ≤ 8)
response_body-direct_example =
    response_body-direct two_rows packed (λ t. true) (λ c. c) filled 7 3 none none (codes "gzip")
      (next (start 0) (refreshed empty counters counters 7 3 10))
