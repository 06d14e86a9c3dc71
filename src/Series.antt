-- ===== src/Series.antt =====
-- backend/app/services/analytics.py, `build_time_series`: the free spaces of all lots at regular times. A
-- lot stands in a bucket with its last reading before it, unless that is older than an interval.
pub mod Lots
pub mod Reference
use kor_travel_transport.Prelude.{
  ℕ, zero, suc, ◌+◌, ◌-◌, ◌*◌, ◌/◌, ◌≡◌, Bool, true, false, not, Option, none, some, List, [], ◌∷◌,
  ◌++◌, map, ltb, leb, ◌==◌, ◌&&◌, ◌||◌, if◌then◌else◌, length, keep, max, ℤ, pos, ◌+ℤ◌,
}
use kor_travel_transport.Prelude.Dict.{Eq, Dict, get, put, values, nat_eq}
use kor_travel_transport.Prelude.Sort.{sorted}
use kor_travel_transport.Clock.{
  DateTime, Aware, Zone, aware, utc, ensure_tz, instant, minute_us, align_to_interval,
}
use kor_travel_transport.Analytics.{Snapshot, utc_instant}

pub record SeriesItem : Type 0 where
  pub bucket_at : ℕ
  pub available_spaces : ℤ
  pub occupied_spaces : ℤ
  pub total_spaces : ℤ
  pub lot_observations : ℕ

abbrev pub observed : Snapshot → ℕ
observed s = utc_instant s.observed_at

-- the key of the sorting of the snapshots
abbrev pub lot_time_before : Snapshot → Snapshot → Bool
lot_time_before a b =
    ltb a.parking_lot_id b.parking_lot_id
    || (a.parking_lot_id == b.parking_lot_id && ltb (observed a) (observed b))

abbrev pub or_empty {ℓ} : {A : Type ℓ} → Option (List A) → List A
or_empty none = []
or_empty (some xs) = xs

-- `groups[k].append(v)` on a `defaultdict(list)`
abbrev pub append_to {ℓ κ} :
    {K : Type ℓ} {B : Type κ} ⦃e : Eq K⦄ → Dict K (List B) → K → B → Dict K (List B)
append_to groups k v = put groups k (or_empty (get groups k) ++ v ∷ [])

-- the loop that groups rows by a key
unfoldable pub grouped {ℓ κ μ} :
    {K : Type ℓ} {A : Type κ} {B : Type μ} ⦃e : Eq K⦄
    → (A → K)
    → (A → B)
    → Dict K (List B)
    → List A
    → Dict K (List B)
grouped key value groups [] = groups
grouped key value groups (x ∷ xs) = grouped key value (append_to groups (key x) (value x)) xs

snapshots_by_lot : List Snapshot → List (List Snapshot)
unfolding grouped
snapshots_by_lot snapshots =
    values
      (grouped (λ (s : Snapshot). s.parking_lot_id) (λ s. s) [] (sorted lot_time_before snapshots))

abbrev pub last_item {ℓ} : {A : Type ℓ} → List A → Option A
last_item [] = none
last_item (x ∷ []) = some x
last_item (x ∷ y ∷ ys) = last_item (y ∷ ys)

-- `[lot_snapshots[-1] for ... if lot_snapshots]`
latest_snapshots : List (List Snapshot) → List Snapshot
latest_snapshots [] = []
latest_snapshots (lot ∷ lots) =
    let rest = latest_snapshots lots in elim (last_item lot) [ none ↦ rest | some s ↦ s ∷ rest ]

max_observed : ℕ → List Snapshot → ℕ
max_observed best [] = best
max_observed best (s ∷ ss) = max_observed (max best (observed s)) ss

-- `start + timedelta(minutes=interval * index)` for `count` indices
buckets_from : ℕ → ℕ → ℕ → List ℕ
buckets_from zero step start = []
buckets_from (suc count) step start = start ∷ buckets_from count step (start + step)

abbrev pub empty_item : ℕ → SeriesItem
empty_item at = record {
  bucket_at = at;
  available_spaces = pos 0;
  occupied_spaces = pos 0;
  total_spaces = pos 0;
  lot_observations = 0;
}

abbrev pub add_snapshot : SeriesItem → Snapshot → SeriesItem
add_snapshot item s = record {
  bucket_at = item.bucket_at;
  available_spaces = item.available_spaces +ℤ s.available_spaces;
  occupied_spaces = item.occupied_spaces +ℤ s.occupied_spaces;
  total_spaces = item.total_spaces +ℤ s.total_spaces;
  lot_observations = suc item.lot_observations;
}

-- the `while` loop: the current snapshot, and those behind `snapshot_index`
pub advance : ℕ → Option Snapshot → List Snapshot → Option Snapshot × List Snapshot
advance bucket_at current [] = (current, [])
advance bucket_at current (s ∷ ss) =
    let further = advance bucket_at (some s) ss in
    if leb (observed s) bucket_at then further else (current, s ∷ ss)

-- the two tests behind the loop; `step` is the interval
abbrev pub add_current : ℕ → SeriesItem → Option Snapshot → SeriesItem
add_current step item none = item
add_current step item (some s) =
    if ltb step (item.bucket_at - observed s) then item else add_snapshot item s

-- the loop over the items for one lot
pub fill_lot : ℕ → ℕ → Option Snapshot → List Snapshot → List SeriesItem → List SeriesItem
unfolding advance
fill_lot latest step current ss [] = []
fill_lot latest step current ss (item ∷ items) =
    let moved = advance item.bucket_at current ss in
    let later = fill_lot latest step moved.0 moved.1 items in
    let skipped = fill_lot latest step current ss items in
    if ltb latest item.bucket_at then item ∷ skipped else add_current step item moved.0 ∷ later

fill_lots : ℕ → ℕ → List (List Snapshot) → List SeriesItem → List SeriesItem
unfolding fill_lot
fill_lots latest step [] items = items
fill_lots latest step (lot ∷ lots) items =
    fill_lots latest step lots (fill_lot latest step none lot items)

-- `latest_item`, the sum of the fresh last readings
add_all : SeriesItem → List Snapshot → SeriesItem
add_all item [] = item
add_all item (s ∷ ss) = add_all (add_snapshot item s) ss

latest_item : ℕ → ℕ → List Snapshot → SeriesItem
unfolding add_all
latest_item latest step lasts =
    add_all (empty_item latest) (keep (λ s. leb (latest - observed s) step) lasts)

-- The end of the function: at `current_index` the item replaces the bucket of the same time, or else
-- comes after it.
stamp : ℕ → SeriesItem → List SeriesItem → List SeriesItem
stamp index latest [] = latest ∷ []
stamp zero latest (item ∷ items) =
    if item.bucket_at == latest.bucket_at then latest ∷ items else item ∷ latest ∷ items
stamp (suc index) latest (item ∷ items) = item ∷ stamp index latest items

-- `latest_observed_at`
latest_of : Option DateTime → List Snapshot → ℕ
unfolding max_observed
latest_of none lasts = max_observed 0 lasts
latest_of (some anchor_at) lasts = utc_instant anchor_at

stamped : Option DateTime → ℕ → SeriesItem → List SeriesItem → List SeriesItem
unfolding stamp
stamped none index latest items = stamp index latest items
stamped (some anchor_at) index latest items = items

-- none is the ValueError of the alignment. `days` and `future_hours` are not negative.
unfoldable build_time_series :
    List Snapshot
    → (days interval future_hours : ℕ) → Zone
    → Option DateTime
    → Option (List SeriesItem)
unfolding snapshots_by_lot latest_snapshots latest_of buckets_from fill_lots latest_item stamped
build_time_series [] days interval future_hours z anchor_at = some []
build_time_series (s ∷ ss) days interval future_hours z anchor_at =
    let lots = snapshots_by_lot (s ∷ ss) in
    let lasts = latest_snapshots lots in
    let latest = latest_of anchor_at lasts in
    let step = interval * minute_us in
    let history = max 1 (days * 24 * 60 / interval) in
    let count = history + future_hours * 60 / interval in
    elim (align_to_interval (aware (record { zone = utc; wall = latest })) (pos interval) z) [
      | none ↦ none
      | some aligned ↦
          let start = instant aligned - step * (history - 1) in
          let items = fill_lots latest step lots (map empty_item (buckets_from count step start)) in
          some (stamped anchor_at (history - 1) (latest_item latest step lasts) items)
    ]
