-- ===== src/Examples/FuelExamples.antt =====
-- Two stations at one price; a publication over an earlier one; a clean-up of what it left.
use kor_travel_transport.Prelude.{ℕ, ◌≡◌, refl, arith, none, some, false, List, [], ◌∷◌, map, suc}
use kor_travel_transport.Prelude.Chars.{Text, codes, text_beq, text_ltb}
use kor_travel_transport.Prelude.Dict.{get, put}
use kor_travel_transport.Fuel.{Floats, Station, Point, StationPrice, empty, add, add_all}
use kor_travel_transport.Fuel.Points.{
  opinet, located, station_points, station_point, station_scopes,
}
use kor_travel_transport.Fuel.Cheapest.{add_all-IsSummary}
use kor_travel_transport.Fuel.Summary.{IsSummary}
use kor_travel_transport.Fuel.Publish.{Db, Round, finish, consume, cleanup_fuel_statistics}
use kor_travel_transport.Fuel.Publish.Steps.{System, done, step, begin, publish}
use kor_travel_transport.Fuel.Publish.Kept.{Moves, Steps-Moves}
use kor_travel_transport.Fuel.Publish.Cleaned.{IsCleaned, cleanup_fuel_statistics-IsCleaned}

abbrev whole : Floats
whole = record {
  Float = ℕ;
  zero_float = 0;
  of_price = λ p. p;
  plus = λ a b. suc a;
  times = λ a b. a;
}

abbrev station : Text → Station
station key = record {
  station_key = key;
  name = codes "A";
  address = codes "Seoul";
  longitude = none;
  latitude = none;
}

abbrev point : Text → ℕ → ℕ → Point
point key stamp price = record {
  station = station key;
  brand_name = codes "S";
  generated_at = stamp;
  product_code = codes "B027";
  price = price;
}

add_all_test :
    (add_all whole
      (empty whole (codes "all"))
      (point (codes "7") 9 1500 ∷ point (codes "3") 9 1500 ∷ [])).cheapest
    ≡ some (station (codes "3"))
unfolding add_all add text_ltb
add_all_test = refl

add_all-IsSummary_example :
    IsSummary whole
      (add_all whole
        (empty whole (codes "all"))
        (point (codes "7") 9 1500 ∷ point (codes "3") 9 1500 ∷ []))
      (point (codes "7") 9 1500 ∷ point (codes "3") 9 1500 ∷ [])
add_all-IsSummary_example =
    add_all-IsSummary whole (codes "all") (point (codes "7") 9 1500) (point (codes "3") 9 1500 ∷ [])

abbrev row : StationPrice
row = record {
  station = station (codes "3");
  brand_name = codes "S";
  sido_value = codes "11";
  sido_name = codes "Seoul";
  sigungu_value = [];
  sigungu_name = [];
  product_code = codes "B027";
  price = 1490;
}

abbrev join : List Text → Text
join [] = []
join (t ∷ ts) = t

abbrev day_of : ℕ → ℕ
day_of stamp = 0

abbrev before : Db whole
before = record {
  points = point (codes "3") 9 1500 ∷ [];
  daily = [];
  state = some (record { generated_at = 9; day = 0 });
  last_success_at = some 12;
}

abbrev system : System whole
system = record { db = before; publishing = []; published = point (codes "3") 9 1500 ∷ [] }

abbrev in_progress : System whole
in_progress = record system { publishing = 12 ∷ [] }

abbrev after_publication : System whole
after_publication = record {
  db = finish whole join day_of 12 (opinet (row ∷ [])) before;
  publishing = [];
  published = map (λ l. l.0) (located join 12 (opinet (row ∷ [])));
}

finish_test :
    map (λ p. p.price) (finish whole join day_of 12 (opinet (row ∷ [])) before).points
    ≡ 1500 ∷ 1490 ∷ []
unfolding finish located station_points station_point station_scopes consume add get put text_beq
finish_test = refl

Steps-Moves_example : Moves whole join day_of system after_publication
Steps-Moves_example =
    Steps-Moves whole join day_of system after_publication
      (step system in_progress after_publication (begin system 12 refl refl) (
        step in_progress after_publication after_publication
          (publish in_progress 12 (opinet (row ∷ [])) refl) (done after_publication)))
      (record { points_kept = refl; unpublished = tt })

abbrev published_later : Db whole
published_later = record before { state = some (record { generated_at = 12; day = 0 }) }

abbrev one_round : List Round
one_round = record { clock = 3; skipped = λ p. false; fails = false } ∷ []

cleanup_fuel_statistics-IsCleaned_example :
    IsCleaned whole one_round published_later
      (cleanup_fuel_statistics whole 15 one_round published_later)
cleanup_fuel_statistics-IsCleaned_example =
    cleanup_fuel_statistics-IsCleaned whole 15 one_round published_later ((refl, refl), tt)
      (omega arith)
