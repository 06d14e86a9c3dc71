-- ===== src/Analytics.antt =====
-- backend/app/services/analytics.py: parking snapshots without duplicates, their status, and the
-- moments at which a lot falls below or climbs back to a threshold. Spaces are ℤ: an upstream row may
-- report more occupied spaces than there are.
pub mod Dedupe
use kor_travel_transport.Prelude.{
  ℕ, zero, suc, ◌+◌, ◌*◌, ◌<◌, ◌≡◌, ◌↔◌, arith, Bool, true, false, not, Option, none, some, List,
  [], ◌∷◌, ◌++◌, map, ltb, ◌==◌, ◌&&◌, ◌||◌, if◌then◌else◌, length, ℤ, pos, pos_part, ltb_ℤ, leb_ℤ,
  take,
}
use kor_travel_transport.Prelude.Dict.{Eq, Dict, get, put, values}
use kor_travel_transport.Prelude.Sort.{sorted}
use kor_travel_transport.Clock.{DateTime, ensure_tz, instant, utc}

-- the columns that the code reads; `id` is `snapshot.id or 0`
pub record Snapshot : Type 0 where
  pub id : ℕ
  pub parking_lot_id : ℕ
  pub is_migration : Bool
  pub observed_at : DateTime
  pub collected_at : DateTime
  pub available_spaces : ℤ
  pub occupied_spaces : ℤ
  pub total_spaces : ℤ

-- `ensure_tz(value, "UTC")`, as an instant
abbrev pub utc_instant : DateTime → ℕ
utc_instant t = instant (ensure_tz t utc)

-- `_snapshot_preference_key(a) < _snapshot_preference_key(b)`, at tuples (migration, -time, -id)
unfoldable pub is_preferred : Snapshot → Snapshot → Bool
is_preferred a b =
    let ta = utc_instant a.collected_at in
    let tb = utc_instant b.collected_at in
    (not a.is_migration && b.is_migration)
    || ((not a.is_migration || b.is_migration) && (ltb tb ta || (ta == tb && ltb b.id a.id)))

-- `(snapshot.parking_lot_id, ensure_tz(snapshot.observed_at, "UTC"))`
abbrev pub Key : Type 0
Key = ℕ × ℕ

abbrev pub key_of : Snapshot → Key
key_of s = (s.parking_lot_id, utc_instant s.observed_at)

abbrev pub key_beq : Key → Key → Bool
key_beq a b = a.0 == b.0 && a.1 == b.1

pub key_beq_iff : (a b : Key) → (key_beq a b ≡ true) ↔ (a ≡ b)
key_beq_iff a b = ground arith

instance abbrev pub key_eq : Eq Key
key_eq = record { beq = key_beq; beq_iff = key_beq_iff }

-- the keys by which the results are sorted
pub comes_before : Snapshot → Snapshot → Bool
comes_before a b =
    let ta = utc_instant a.observed_at in
    let tb = utc_instant b.observed_at in
    ltb ta tb
    || (ta == tb
        && (ltb a.parking_lot_id b.parking_lot_id
            || (a.parking_lot_id == b.parking_lot_id && ltb a.id b.id)))

-- The loops of `deduplicate_snapshots` and `deduplicate_snapshot_rows`: rows of any kind that hold
-- a snapshot.
module _ {A : Type 0} (snapshot : A → Snapshot) where
  -- `current` is what the dict holds for the key of the row
  pub store_best : Dict Key A → A → Option A → Dict Key A
  store_best selected row none = put selected (key_of (snapshot row)) row
  store_best selected row (some current) =
      if is_preferred (snapshot row) (snapshot current)
      then put selected (key_of (snapshot row)) row
      else selected

  pub select_step : Dict Key A → A → Dict Key A
  unfolding store_best
  select_step selected row = store_best selected row (get selected (key_of (snapshot row)))

  pub select_best : Dict Key A → List A → Dict Key A
  unfolding select_step
  select_best selected [] = selected
  select_best selected (row ∷ rows) = select_best (select_step selected row) rows

  unfoldable pub deduplicate_by : List A → List A
  unfolding select_best
  deduplicate_by rows =
      sorted (λ a b. comes_before (snapshot a) (snapshot b)) (values (select_best [] rows))

unfoldable deduplicate_snapshots : List Snapshot → List Snapshot
unfolding deduplicate_by
deduplicate_snapshots = deduplicate_by (λ s. s)

-- rows of a snapshot with its lot and airport
unfoldable deduplicate_snapshot_rows :
    {Lot Airport : Type 0} → List (Snapshot × Lot × Airport) → List (Snapshot × Lot × Airport)
unfolding deduplicate_by
deduplicate_snapshot_rows = deduplicate_by (λ row. row.0)

pub data StatusLevel : Type 0 where
  full critical warning busy stable : StatusLevel

-- `available_spaces / total_spaces < 0.25` at positive operands, and at a negative total true
unfoldable classify_status_level : ℤ → ℤ → StatusLevel
classify_status_level available total =
    if leb_ℤ available (pos 0)
    then full
    else if ltb_ℤ available (pos 10)
    then critical
    else if ltb_ℤ available (pos 50)
    then warning
    else if ltb_ℤ total (pos 0) || ltb (4 * pos_part available) (pos_part total)
    then busy
    else stable
