-- ===== src/History.antt =====
-- backend/app/services/parking_history_cache.py: the read cache of the whole parking history. A
-- snapshot is immutable and is known by its address, so that `is` compares addresses; `object` gives
-- the snapshot at an address. Brotli, gzip and the reading of a float are arguments, and so is what
-- other tasks make of the cache while a response is rendered. Times of the clock are in seconds.
pub mod Encoding
pub mod Cache
use kor_travel_transport.Prelude.{
  ℕ, zero, suc, ◌+◌, Bool, true, false, not, Option, none, some, List, [], ◌∷◌, ◌++◌, map, any,
  keep, count, ltb, ◌==◌, ==_iff, ◌&&◌, ◌≡◌, ◌↔◌, refl, ap, arith, some-inj,
}
use kor_travel_transport.Prelude.Chars.{Text, codes, text_beq, text_beq_iff}
use kor_travel_transport.Prelude.Dict.{Eq}
use kor_travel_transport.History.Encoding.{Coding, br, gzip, identity, coding_beq}

pub record CachedHistoryItem : Type 0 where
  pub observed_at : ℕ
  pub airport_code : Text
  pub parking_lot_id : ℕ
  pub encoded : Text

pub record ParkingHistorySnapshot : Type 0 where
  pub earliest_observed_at : ℕ
  pub max_snapshot_id : ℕ
  pub items : List CachedHistoryItem

-- a row of the query with the JSON text that `to_json` makes of it
pub record HistoryRow : Type 0 where
  pub observed_at : ℕ
  pub code : Text
  pub parking_lot_id : ℕ
  pub json : Text

abbrev pub item_of : HistoryRow → CachedHistoryItem
item_of r = record {
  observed_at = r.observed_at;
  airport_code = r.code;
  parking_lot_id = r.parking_lot_id;
  encoded = r.json;
}

abbrev pub from_rows : ℕ → ℕ → List HistoryRow → ParkingHistorySnapshot
from_rows earliest max_id rows = record {
  earliest_observed_at = earliest;
  max_snapshot_id = max_id;
  items = map item_of rows;
}

-- `bisect_left(times, cutoff)`: the query gives the times in order
abbrev pub bisect_left : List CachedHistoryItem → ℕ → ℕ
bisect_left items cutoff = count (λ i. ltb i.observed_at cutoff) items

abbrev pub drop_items : ℕ → List CachedHistoryItem → List CachedHistoryItem
drop_items zero items = items
drop_items (suc n) [] = []
drop_items (suc n) (i ∷ items) = drop_items n items

-- an id of 0 and an empty code count as none
abbrev pub asks_for : Option Text → Option ℕ → CachedHistoryItem → Bool
asks_for airport_code (some (suc n)) i = i.parking_lot_id == suc n
asks_for (some (c ∷ cs)) _ i = text_beq i.airport_code (c ∷ cs)
asks_for _ _ i = true

abbrev pub joined : List CachedHistoryItem → Text
joined [] = []
joined (i ∷ []) = i.encoded
joined (i ∷ j ∷ items) = i.encoded ++ b',' ∷ joined (j ∷ items)

-- the body from the first row that is asked for
pub render_from : ParkingHistorySnapshot → ℕ → Option Text → Option ℕ → Text
render_from s start airport_code parking_lot_id =
    codes "{\"items\":["
    ++ (joined (keep (asks_for airport_code parking_lot_id) (drop_items start s.items))
        ++ codes "],\"next_cursor\":null}")

pub render : ParkingHistorySnapshot → ℕ → Option Text → Option ℕ → Text
unfolding render_from
render s cutoff airport_code parking_lot_id =
    render_from s (bisect_left s.items cutoff) airport_code parking_lot_id

-- the key of a prepared response
pub record Key : Type 0 where
  pub start : ℕ
  pub airport_code : Option Text
  pub parking_lot_id : Option ℕ
  pub coding : Coding

abbrev pub option_beq {ℓ} : {A : Type ℓ} → (A → A → Bool) → Option A → Option A → Bool
option_beq beq none none = true
option_beq beq (some a) (some b) = beq a b
option_beq beq _ _ = false

abbrev pub key_beq : Key → Key → Bool
key_beq a b =
    a.start == b.start
    && (option_beq text_beq a.airport_code b.airport_code
        && (option_beq (λ x y. x == y) a.parking_lot_id b.parking_lot_id
            && coding_beq a.coding b.coding))

option_beq_iff {ℓ} :
    {A : Type ℓ} (beq : A → A → Bool) (iff : (a b : A) → (beq a b ≡ true) ↔ (a ≡ b))
    (a b : Option A)
    → (option_beq beq a b ≡ true) ↔ (a ≡ b)
option_beq_iff beq iff none none = (λ h. refl, λ e. refl)
option_beq_iff beq iff none (some b) = (λ h. cc, λ e. cc)
option_beq_iff beq iff (some a) none = (λ h. cc, λ e. cc)
option_beq_iff beq iff (some a) (some b) =
    (λ h. ap some ((iff a b).0 h), λ e. (iff a b).1 (some-inj e))

coding_beq_iff : (a b : Coding) → (coding_beq a b ≡ true) ↔ (a ≡ b)
coding_beq_iff br br = (λ h. refl, λ e. refl)
coding_beq_iff br gzip = (λ h. cc, λ e. cc)
coding_beq_iff br identity = (λ h. cc, λ e. cc)
coding_beq_iff gzip br = (λ h. cc, λ e. cc)
coding_beq_iff gzip gzip = (λ h. refl, λ e. refl)
coding_beq_iff gzip identity = (λ h. cc, λ e. cc)
coding_beq_iff identity br = (λ h. cc, λ e. cc)
coding_beq_iff identity gzip = (λ h. cc, λ e. cc)
coding_beq_iff identity identity = (λ h. refl, λ e. refl)

pub key_beq_iff : (a b : Key) → (key_beq a b ≡ true) ↔ (a ≡ b)
key_beq_iff a b = (
  λ h.
      let same_start : a.start ≡ b.start = ground (arith, h) in
      let same_airport : option_beq text_beq a.airport_code b.airport_code ≡ true =
        ground (arith, h) in
      let same_lot : option_beq (λ x y. x == y) a.parking_lot_id b.parking_lot_id ≡ true =
        ground (arith, h) in
      let same_coding : coding_beq a.coding b.coding ≡ true = ground (arith, h) in
      cc (
        same_start,
        (option_beq_iff text_beq text_beq_iff a.airport_code b.airport_code).0 same_airport,
        (option_beq_iff (λ x y. x == y) ==_iff a.parking_lot_id b.parking_lot_id).0 same_lot,
        (coding_beq_iff a.coding b.coding).0 same_coding,
      ),
  λ e. rw e (
      ground (
        arith,
        (option_beq_iff text_beq text_beq_iff b.airport_code b.airport_code).1 refl,
        (option_beq_iff (λ x y. x == y) ==_iff b.parking_lot_id b.parking_lot_id).1 refl,
        (coding_beq_iff b.coding b.coding).1 refl,
      )),
)

instance abbrev pub key_eq : Eq Key
key_eq = record { beq = key_beq; beq_iff = key_beq_iff }
