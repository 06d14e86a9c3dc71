-- ===== src/Fuel/Points.antt =====
-- The rows of a source as points with the scopes that each counts in, as `publish_fuel_statistics` reads them.
pub mod Stamped
use kor_travel_transport.Prelude.{
  ℕ, suc, ◌+◌, Bool, true, false, not, Option, none, some, List, [], ◌∷◌, ◌++◌, map, keep, any, ltb,
  leb, ◌==◌, ◌&&◌, ◌||◌, if◌then◌else◌, ℤ, pos, leb_ℤ, pos_part, ◌≡◌, ◌↔◌, refl, sym, ap, ==_iff,
  arith,
}
use kor_travel_transport.Prelude.Chars.{Text, codes, text_beq, text_beq_iff, strip, or_text}
use kor_travel_transport.Prelude.Dict.{Dict, Eq, get, put}
use kor_travel_transport.Stations.Manual.{is_empty}
use kor_travel_transport.Fuel.{
  Floats, Station, Point, Scope, nationwide, sido, sigungu, highways, highway, highway_direction,
  scope_number, GroupKey, ScopeLabel, StationPrice, RestAreaPrice, Accumulator, empty, add,
}

abbrev pub scope_label : Scope → Text → Text → ScopeLabel
scope_label scope scope_key label = record { scope = scope; scope_key = scope_key; label = label }

-- a point with the scopes that it counts in
abbrev pub Located : Type 0
Located = Point × List ScopeLabel

module _ (key : List Text → Text) (stamp : ℕ) where
  unfoldable pub station_scopes : StationPrice → List ScopeLabel
  unfolding strip
  station_scopes row =
      scope_label nationwide (codes "all") (codes "전국")
      ∷ (if is_empty row.sido_value
          then []
          else scope_label sido (key (row.sido_value ∷ [])) (or_text row.sido_name (codes "시도 미제공"))
            ∷ (if is_empty row.sigungu_value
                then []
                else scope_label sigungu (key (row.sido_value ∷ row.sigungu_value ∷ [])) (
                    strip (
                      or_text row.sido_name row.sido_value
                      ++ (b' ' ∷ or_text row.sigungu_name row.sigungu_value)))
                  ∷ []))

  unfoldable pub station_point : StationPrice → Located
  unfolding station_scopes
  station_point row = (
    record {
      station = row.station;
      brand_name = row.brand_name;
      generated_at = stamp;
      product_code = row.product_code;
      price = row.price;
    },
    station_scopes row,
  )

  -- the rows with a price above 0
  unfoldable pub station_points : List StationPrice → List Located
  unfolding station_point
  station_points rows = map station_point (keep (λ r. ltb 0 r.price) rows)

  abbrev pub route_scopes : Text → Text → Text → List ScopeLabel
  route_scopes route route_key direction =
      scope_label highways (codes "all") (codes "고속도로 전체")
      ∷ scope_label highway (key (route_key ∷ [])) route
      ∷ scope_label highway_direction (key (route_key ∷ direction ∷ []))
          (route ++ (codes " · " ++ direction))
      ∷ []

  abbrev pub rest_area_scopes : RestAreaPrice → List ScopeLabel
  rest_area_scopes row =
      let route = or_text row.route_name (codes "노선 미제공") in
      route_scopes route (or_text row.route_code route) (or_text row.direction (codes "방향 미제공"))

  abbrev pub rest_area_point : RestAreaPrice → Text → ℕ → Point
  rest_area_point row product price = record {
    station = record {
      station_key = row.service_area_code;
      name = or_text row.service_area_name row.service_area_code;
      address = row.address;
      longitude = none;
      latitude = none;
    };
    brand_name = row.oil_company;
    generated_at = stamp;
    product_code = product;
    price = price;
  }

  abbrev pub priced : RestAreaPrice → Text → Option ℤ → List Located
  priced row product none = []
  priced row product (some price) =
      if leb_ℤ price (pos 0)
      then []
      else (rest_area_point row product (pos_part price), rest_area_scopes row) ∷ []

  pub rest_area_points : List RestAreaPrice → List Located
  rest_area_points [] = []
  rest_area_points (row ∷ rows) =
      priced row (codes "B027") row.gasoline_price
      ++ (priced row (codes "D047") row.diesel_price
          ++ (priced row (codes "K015") row.lpg_price ++ rest_area_points rows))

-- what a source has at the time of a publication
pub data Rows : Type 0 where
  opinet : List StationPrice → Rows
  highway_rows : List RestAreaPrice → Rows

unfoldable pub located : (List Text → Text) → ℕ → Rows → List Located
unfolding station_points rest_area_points
located key stamp (opinet rows) = station_points key stamp rows
located key stamp (highway_rows rows) = rest_area_points key stamp rows
