-- ===== src/Fuel.antt =====
-- backend/app/services/fuel_statistics.py: the groups over which fuel prices are counted. A price is
-- in hundredths, as the column holds it; the sums, which the code makes in floats, are values of a type
-- with an addition and a product. JSON keys are an argument.
pub mod Summary
pub mod Cheapest
pub mod Points
pub mod Publish
use kor_travel_transport.Prelude.{
  ℕ, suc, Bool, true, false, not, Option, none, some, List, [], ◌∷◌, ◌++◌, ltb, ◌==◌, ◌&&◌, ◌||◌,
  if◌then◌else◌, ℤ, ◌≡◌, ◌↔◌, refl, arith,
}
use kor_travel_transport.Prelude.Chars.{Text, codes, text_beq, text_beq_iff, text_ltb, or_text}
use kor_travel_transport.Prelude.Dict.{Dict, Eq, get, put}

-- the floats of the sums
pub record Floats : Type 1 where
  pub Float : Type 0
  pub zero_float : Float
  pub of_price : ℕ → Float
  pub plus : Float → Float → Float
  pub times : Float → Float → Float

pub record Station : Type 0 where
  pub station_key : Text
  pub name : Text
  pub address : Text
  pub longitude : Option ℤ
  pub latitude : Option ℤ

-- FuelStatisticsPoint, of one source
pub record Point : Type 0 where
  pub station : Station
  pub brand_name : Text
  pub generated_at : ℕ
  pub product_code : Text
  pub price : ℕ

pub data Scope : Type 0 where
  nationwide sido sigungu highways highway highway_direction : Scope

abbrev pub scope_number : Scope → ℕ
scope_number nationwide = 0
scope_number sido = 1
scope_number sigungu = 2
scope_number highways = 3
scope_number highway = 4
scope_number highway_direction = 5

pub record GroupKey : Type 0 where
  pub scope : Scope
  pub scope_key : Text
  pub product_code : Text

pub record ScopeLabel : Type 0 where
  pub scope : Scope
  pub scope_key : Text
  pub label : Text

-- a row of the stations with their latest prices
pub record StationPrice : Type 0 where
  pub station : Station
  pub brand_name : Text
  pub sido_value : Text
  pub sido_name : Text
  pub sigungu_value : Text
  pub sigungu_name : Text
  pub product_code : Text
  pub price : ℕ

-- a row of RestAreaFuelPrice; a price is in hundredths here too
pub record RestAreaPrice : Type 0 where
  pub service_area_code : Text
  pub service_area_name : Text
  pub address : Text
  pub oil_company : Text
  pub route_code : Text
  pub route_name : Text
  pub direction : Text
  pub gasoline_price : Option ℤ
  pub diesel_price : Option ℤ
  pub lpg_price : Option ℤ

-- `_Accumulator`; a minimum that is infinite is none
pub record Accumulator (F : Floats) : Type 0 where
  pub label : Text
  pub count : ℕ
  pub total : F.Float
  pub squares : F.Float
  pub minimum : Option ℕ
  pub maximum : ℕ
  pub cheapest : Option Station
  pub cheapest_count : ℕ

abbrev pub below : ℕ → Option ℕ → Bool
below price none = true
below price (some m) = ltb price m

abbrev pub equals : ℕ → Option ℕ → Bool
equals price none = false
equals price (some m) = price == m

abbrev pub max_price : ℕ → ℕ → ℕ
max_price a b = if ltb a b then b else a

-- the station with the lesser key
abbrev pub lesser : Station → Option Station → Option Station
lesser s none = none
lesser s (some t) = if text_ltb s.station_key t.station_key then some s else some t

module _ (F : Floats) where
  abbrev pub empty : Text → Accumulator F
  empty label = record {
    label = label;
    count = 0;
    total = F.zero_float;
    squares = F.zero_float;
    minimum = none;
    maximum = 0;
    cheapest = none;
    cheapest_count = 0;
  }

  abbrev pub summed : Accumulator F → Point → Accumulator F
  summed acc point = record acc {
    count = suc acc.count;
    total = F.plus acc.total (F.of_price point.price);
    squares = F.plus acc.squares (F.times (F.of_price point.price) (F.of_price point.price));
    maximum = max_price acc.maximum point.price;
  }

  unfoldable pub add : Accumulator F → Point → Accumulator F
  unfolding text_ltb
  add acc point =
      if below point.price acc.minimum
      then record (summed acc point) {
        minimum = some point.price;
        cheapest_count = 1;
        cheapest = some point.station;
      }
      else if equals point.price acc.minimum
      then record (summed acc point) {
        cheapest_count = suc acc.cheapest_count;
        cheapest = lesser point.station acc.cheapest;
      }
      else summed acc point

  unfoldable pub add_all : Accumulator F → List Point → Accumulator F
  unfolding add
  add_all acc [] = acc
  add_all acc (p ∷ ps) = add_all (add acc p) ps
