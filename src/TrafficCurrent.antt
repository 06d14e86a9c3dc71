-- ===== src/TrafficCurrent.antt =====
-- backend/app/services/traffic_current.py: the table of the current traffic of one source and scope. The
-- columns that only travel with a snapshot are one value. A snapshot is looked up by its identity and time, of
-- which the history has each pair once; the code looks up 400 pairs at a time.
pub mod Written
pub mod Members
use kor_travel_transport.Prelude.{
  ℕ, Bool, true, false, not, Option, none, some, List, [], ◌∷◌, length, ltb, leb, ◌==◌, ◌&&◌, ◌||◌,
  if◌then◌else◌,
}
use kor_travel_transport.Prelude.Chars.{Text, text_beq, text_eq, text_ltb}
use kor_travel_transport.Prelude.Dict.{Dict, get, put}
use kor_travel_transport.Prelude.Sort.{sorted}

-- HighwayTrafficSnapshot
pub record Snapshot : Type 0 where
  pub id : ℕ
  pub identity_key : Text
  pub observed_at : ℕ
  pub collected_at : ℕ
  pub columns : List Text

-- HighwayTrafficCurrent
pub record Row : Type 0 where
  pub generation : ℕ
  pub snapshot : Snapshot

-- HighwayTrafficCurrentState
pub record CurrentState : Type 0 where
  pub generation : ℕ
  pub attempt_started_at : ℕ
  pub attempt_order : ℕ
  pub confirmed_at : ℕ
  pub member_count : ℕ

pub record Tables : Type 0 where
  pub state : Option CurrentState
  pub rows : Dict Text Row

-- what the session holds of the run that collects
pub record Run : Type 0 where
  pub id : ℕ
  pub started_at : ℕ
  pub is_running : Bool

pub data Updated : Type 0 where
  value_error : Updated
  updated : Bool → Tables → Updated

-- the excluded values are not older than those of the row
abbrev pub is_newer : Snapshot → Snapshot → Bool
is_newer new old =
    ltb old.observed_at new.observed_at
    || ((new.observed_at == old.observed_at && ltb old.collected_at new.collected_at)
        || (new.observed_at == old.observed_at
            && (new.collected_at == old.collected_at && leb old.id new.id)))

abbrev pub is_later : ℕ → Option ℕ → Bool
is_later observed_at none = true
is_later observed_at (some kept) = ltb kept observed_at

unfoldable pub latest : Dict Text ℕ → List (Text × ℕ) → Dict Text ℕ
latest d [] = d
latest d ((identity, observed_at) ∷ pairs) =
    let stored = latest (put d identity observed_at) pairs in
    let skipped = latest d pairs in
    if is_later observed_at (get d identity) then stored else skipped

abbrev pub is_point : Text → ℕ → Snapshot → Bool
is_point identity observed_at s = text_beq s.identity_key identity && s.observed_at == observed_at

abbrev pub point_of : List Snapshot → Text → ℕ → Option Snapshot
point_of [] identity observed_at = none
point_of (s ∷ ss) identity observed_at =
    let rest = point_of ss identity observed_at in
    if is_point identity observed_at s then some s else rest

-- `on_conflict_do_update`: the generation is always the new one
abbrev pub merged : ℕ → Snapshot → Option Row → Row
merged generation new none = record { generation = generation; snapshot = new }
merged generation new (some row) = record {
  generation = generation;
  snapshot = if is_newer new row.snapshot then new else row.snapshot;
}

abbrev pub write_point : ℕ → Dict Text Row → Text → Snapshot → Dict Text Row
write_point generation rows identity new =
    put rows identity (merged generation new (get rows identity))

unfoldable pub write_points :
    ℕ → List Snapshot → Dict Text Row → List (Text × ℕ) → Option (Dict Text Row)
write_points generation history rows [] = some rows
write_points generation history rows ((identity, observed_at) ∷ keys) =
    elim (point_of history identity observed_at) [
      | none ↦ none
      | some new ↦ write_points generation history (write_point generation rows identity new) keys
    ]

abbrev pub is_late : ℕ → Option CurrentState → Bool
is_late run_id none = false
is_late run_id (some state) = ltb run_id state.attempt_order

abbrev pub state_of : ℕ → Run → ℕ → ℕ → CurrentState
state_of generation run confirmed_at member_count = record {
  generation = generation;
  attempt_started_at = run.started_at;
  attempt_order = run.id;
  confirmed_at = confirmed_at;
  member_count = member_count;
}

abbrev pub key_first : Text × ℕ → Text × ℕ → Bool
key_first a b = text_ltb a.0 b.0 || (text_beq a.0 b.0 && ltb a.1 b.1)

abbrev pub committed : CurrentState → Option (Dict Text Row) → Updated
committed state none = value_error
committed state (some rows) = updated true (record { state = some state; rows = rows })

-- `generation` is a fresh uuid
unfoldable pub update_traffic_current :
    ℕ → List Snapshot → Run → List (Text × ℕ) → ℕ → Tables → Updated
unfolding latest write_points
update_traffic_current generation history run pairs confirmed_at tables =
    let keys = latest [] pairs in
    let state = state_of generation run confirmed_at (length keys) in
    if not run.is_running
    then value_error
    else if is_late run.id tables.state
    then updated false tables
    else committed state (write_points generation history tables.rows (sorted key_first keys))
