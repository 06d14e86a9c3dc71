-- ===== src/Scan.antt =====
-- backend/app/dagster/recovery.py: `reconcile_collection_runs`, the scan of the recovery sensor over the
-- runs of all workers, in pages, with a budget of time and a position kept between ticks; and the
-- test of the owner before a new collection. The scan has the database to itself; the steps of the
-- workers between its statements are in Recovery.Interleaving.
pub mod Sweep
pub mod Ends
use kor_travel_transport.Prelude.{
  ℕ, zero, suc, ◌+◌, ◌-◌, Bool, true, false, not, Option, none, some, List, [], ◌∷◌, ◌&&◌, ◌||◌,
  if◌then◌else◌, take,
}
use kor_travel_transport.Recovery.{
  Row, Db, Lease, Metadata, missing, finished, alive, unavailable, is_running, is_held, is_expired,
  same_heartbeat, recover_row,
}

-- a row that the query returns: its id and owner, and the columns of heartbeat and start
pub record Found : Type 0 where
  pub id : ℕ
  pub owner : ℕ
  pub seen : Row

abbrev pub found_at : ℕ → Option Row → List Found → List Found
found_at id none rest = rest
found_at id (some r) rest = elim r.orchestrator_run_id [
  | none ↦ rest
  | some o ↦ if is_running r.status then record { id = id; owner = o; seen = r } ∷ rest else rest
]

-- the running rows with an owner among `count` ids from `id` on, by their ids
pub running_from : Db → ℕ → ℕ → List Found
running_from db zero id = []
running_from db (suc count) id = found_at id (db id) (running_from db count (suc id))

-- `id > cursor`, `order_by(id)`, `limit(page_size)`; `last_id` is the greatest id of the table
pub page : ℕ → ℕ → ℕ → Db → List Found
unfolding running_from
page last_id page_size cursor db = take page_size (running_from db (last_id - cursor) (suc cursor))

-- What the scan asks outside: the budget, the time, and what Dagster says of an owner. Each depends on
-- the number of rows and pages so far, since it may change between the calls.
pub record Tick : Type 0 where
  pub has_budget : ℕ → Bool
  pub now : ℕ → ℕ
  pub metadata : ℕ → ℕ → Metadata

pub record ScanState : Type 0 where
  pub db : Db
  pub cursor : ℕ
  pub recovered : ℕ
  pub calls : ℕ

-- `result.rowcount` of the UPDATE
abbrev pub row_count : Bool → ℕ → Row → Option Row → ℕ
row_count missing_expired owner seen none = 0
row_count missing_expired owner seen (some r) =
    if is_held (some r) owner
      && (not missing_expired || same_heartbeat r.heartbeat_at seen.heartbeat_at)
    then 1
    else 0

abbrev pub recovered_by : ℕ → Found → Metadata → Db → ℕ
recovered_by now f missing db =
    if is_expired now f.seen then row_count true f.owner f.seen (db f.id) else 0
recovered_by now f finished db = row_count false f.owner f.seen (db f.id)
recovered_by now f alive db = 0
recovered_by now f unavailable db = 0

-- the loop body behind the metadata
pub after_row : Tick → ScanState → Found → Metadata → ScanState
after_row t s f m = record {
  db = recover_row (t.now s.calls) f.id f.owner f.seen m s.db;
  cursor = f.id;
  recovered = s.recovered + recovered_by (t.now s.calls) f m s.db;
  calls = suc s.calls;
}

-- The state at the end of a loop, or the end of the scan: out of budget, at a row without metadata, or
-- past the last row. `stuck` is the model out of fuel.
pub data Progress : Type 0 where
  going : ScanState → Progress
  paused : ScanState → Progress
  metadata_failed : ScanState → Progress
  swept : ScanState → Progress
  stuck : Progress

-- `for row in rows`
pub scan_rows : Tick → ScanState → List Found → Progress
unfolding after_row
scan_rows t s [] = going s
scan_rows t s (f ∷ rows) =
    let rest = scan_rows t (after_row t s f (t.metadata s.calls f.owner)) rows in
    if not (t.has_budget s.calls) then paused s else elim (t.metadata s.calls f.owner) [
      | unavailable ↦ metadata_failed s
      | missing ↦ rest
      | finished ↦ rest
      | alive ↦ rest
    ]

abbrev pub next_page : (ScanState → Progress) → Progress → Progress
next_page k (going s) = k s
next_page k (paused s) = paused s
next_page k (metadata_failed s) = metadata_failed s
next_page k (swept s) = swept s
next_page k stuck = stuck

-- one round of `while True`; `k` is the rest of the rounds
abbrev pub scan_page : (ScanState → Progress) → Tick → ScanState → List Found → Progress
scan_page k t s [] = swept s
scan_page k t s (f ∷ rows) = next_page k (scan_rows t (record s { calls = suc s.calls }) (f ∷ rows))

pub scan_pages : ℕ → ℕ → ℕ → Tick → ScanState → Progress
unfolding scan_rows page
scan_pages zero last_id page_size t s = stuck
scan_pages (suc fuel) last_id page_size t s =
    let rest =
      scan_page (scan_pages fuel last_id page_size t) t s (page last_id page_size s.cursor s.db) in
    if not (t.has_budget s.calls) then paused s else rest

-- what a tick leaves: the saved position, the recovered rows, and whether it raised
pub record Ticked : Type 0 where
  pub position : ℕ
  pub rows_recovered : ℕ
  pub raised : Bool
  pub left : Db

abbrev pub ticked : Progress → Option Ticked
ticked (going s) = none
ticked (paused s) =
    some (record { position = s.cursor; rows_recovered = s.recovered; raised = false; left = s.db })
ticked (metadata_failed s) =
    some (record { position = s.cursor; rows_recovered = s.recovered; raised = true; left = s.db })
ticked (swept s) =
    some (record { position = 0; rows_recovered = s.recovered; raised = false; left = s.db })
ticked stuck = none

-- The fuel: each page moves the cursor to a later id, and one more finds no row.
pub scan : ℕ → ℕ → Tick → ℕ → Db → Progress
unfolding scan_pages
scan last_id page_size t position db =
    scan_pages (suc (suc last_id)) last_id page_size t
      (record { db = db; cursor = position; recovered = 0; calls = 0 })

unfoldable pub reconcile_collection_runs : ℕ → ℕ → Tick → ℕ → Db → Option Ticked
unfolding scan
reconcile_collection_runs last_id page_size t position db =
    ticked (scan last_id page_size t position db)

abbrev pub ends_owner : Metadata → Bool
ends_owner missing = true
ends_owner finished = true
ends_owner _ = false

-- `ensure_collection_owner_active`: whether it returns, and the lease after it. `told` is what the
-- instance says of the owner, none where the lease has no instance.
unfoldable ensure_collection_owner_active : Option Metadata → Lease → Bool × Lease
ensure_collection_owner_active told l = if l.revoked then (false, l) else elim told [
  | none ↦ (true, l)
  | some unavailable ↦ (false, l)
  | some m ↦ if ends_owner m then (false, record l { revoked = true }) else (true, l)
]
