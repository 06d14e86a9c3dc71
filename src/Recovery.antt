-- ===== src/Recovery.antt =====
-- backend/app/dagster/recovery.py: who may publish a collection run. A worker session holds a lease;
-- before each flush and commit it locks its runs' rows and checks that they are still its own. The
-- sensor takes back the runs of workers that ended. The database is a function from the ids of
-- runs; a row that a session has fenced is locked until the transaction ends. Owners are numbers.
-- The session's `info` entries are the fields of `Session`. The lease, which all sessions of one
-- operation share, goes through the handlers beside the session.
pub mod Fencing
pub mod Revoked
pub mod Rows
pub mod Interleaving
use kor_travel_transport.Prelude.{
  ℕ, ◌+◌, ◌≤◌, Bool, true, false, not, Option, none, some, List, [], ◌∷◌, ◌++◌, any, keep, leb,
  ◌==◌, ◌&&◌, ◌||◌, if◌then◌else◌,
}

pub data Status : Type 0 where
  running success failed : Status

pub record Row : Type 0 where
  pub status : Status
  pub orchestrator_run_id : Option ℕ
  pub heartbeat_at : Option ℕ
  pub started_at : ℕ

abbrev pub Db : Type 0
Db = ℕ → Option Row

abbrev pub write : Db → ℕ → Row → Db
write db id row j = if j == id then some row else db j

abbrev pub is_running : Status → Bool
is_running running = true
is_running _ = false

abbrev pub is_owner : Option ℕ → ℕ → Bool
is_owner none o = false
is_owner (some p) o = p == o

-- the test of `_fence` on the row that was read
abbrev pub is_held : Option Row → ℕ → Bool
is_held none owner = false
is_held (some r) owner = is_running r.status && is_owner r.orchestrator_run_id owner

-- `OwnerLease`
pub record Lease : Type 0 where
  pub run_id : ℕ
  pub revoked : Bool

pub record Session : Type 0 where
  pub owner : ℕ
  pub runs : List ℕ
  pub fenced : List ℕ
  pub new_ids : List ℕ
  pub pending : List ℕ

abbrev pub has : List ℕ → ℕ → Bool
has ids id = any (λ j. j == id) ids

-- What an event handler leaves: the lease, the session, the database, and whether it returned; where
-- it did not, CollectionLeaseLost was raised.
pub record Outcome : Type 0 where
  pub lease : Lease
  pub session : Session
  pub db : Db
  pub returned : Bool

abbrev pub beat : ℕ → Row → Row
beat now r = record r { heartbeat_at = some now }

-- the loop of `_fence` over `collector_runs`
pub fence_runs : ℕ → Lease → Session → Db → List ℕ → Outcome
fence_runs now l s db [] = record { lease = l; session = s; db = db; returned = true }
fence_runs now l s db (id ∷ ids) =
    let skip = fence_runs now l s db ids in
    let lost : Outcome = record {
      lease = record l { revoked = true };
      session = s;
      db = db;
      returned = false;
    } in
    if has s.fenced id then skip else elim (db id) [
      | none ↦ lost
      | some r ↦
          let locked =
            fence_runs now l (record s { fenced = id ∷ s.fenced }) (write db id (beat now r)) ids in
          if is_held (some r) s.owner then locked else lost
    ]

unfoldable pub fence : ℕ → Lease → Session → Db → Outcome
unfolding fence_runs
fence now l s db =
    if l.revoked
    then record { lease = l; session = s; db = db; returned = false }
    else fence_runs now l s db s.runs

-- `_before_flush`, with the ids that the new `CollectionRun` rows get
pub before_flush : ℕ → List ℕ → Lease → Session → Db → Outcome
unfolding fence
before_flush now new l s db =
    fence now l (record s { pending = s.pending ++ keep (λ id. not (has s.pending id)) new }) db

-- the flush itself: each pending row is inserted with the owner and the time of `_before_flush`
unfoldable pub insert_pending : ℕ → ℕ → (ℕ → Status) → List ℕ → Db → Db
insert_pending now owner status [] db = db
insert_pending now owner status (id ∷ ids) db = insert_pending now owner status ids (
    write db id (record {
      status = status id;
      orchestrator_run_id = some owner;
      heartbeat_at = some now;
      started_at = now;
    }))

-- `_capture_runs`
pub capture_runs : (ℕ → Status) → Session → Session
capture_runs status s =
    let started = keep (λ id. is_running (status id)) s.pending in
    record s {
      runs = s.runs ++ started;
      fenced = s.fenced ++ started;
      new_ids = s.new_ids ++ started;
      pending = [];
    }

unfoldable pub before_commit : ℕ → Lease → Session → Db → Outcome
unfolding fence
before_commit = fence

-- `_after_commit`; `known` is the status in the row's `__dict__`, if it is there
pub after_commit : (ℕ → Option Status) → Session → Session
after_commit known s = record s {
  runs = keep (λ id. elim (known id) [ none ↦ true | some status ↦ is_running status ]) s.runs;
  fenced = [];
  new_ids = [];
}

-- `_after_rollback`
pub after_rollback : Session → Session
after_rollback s = record s {
  runs = keep (λ id. not (has s.new_ids id)) s.runs;
  fenced = [];
  new_ids = [];
  pending = [];
}

-- What Dagster says of an owner: no such run, or one that has or has not finished.
pub data Metadata : Type 0 where
  missing finished alive unavailable : Metadata

-- five hours, in microseconds
abbrev pub missing_run_grace : ℕ
missing_run_grace = 18_000_000_000

abbrev pub or_started : Option ℕ → ℕ → ℕ
or_started none at = at
or_started (some h) at = h

-- `heartbeat <= now - MISSING_RUN_GRACE`
abbrev pub is_expired : ℕ → Row → Bool
is_expired now r = leb (or_started r.heartbeat_at r.started_at + missing_run_grace) now

abbrev pub same_heartbeat : Option ℕ → Option ℕ → Bool
same_heartbeat none none = true
same_heartbeat (some a) (some b) = a == b
same_heartbeat _ _ = false

-- The UPDATE: it looks at the row as it is now, which may no longer be the one that was read.
unfoldable pub update_row : Bool → ℕ → ℕ → Row → Db → Db
update_row missing_expired id owner seen db = elim (db id) [
  | none ↦ db
  | some r ↦
      if is_held (some r) owner
        && (not missing_expired || same_heartbeat r.heartbeat_at seen.heartbeat_at)
      then write db id (record r { status = failed })
      else db
]

-- The body of the loop over a page, for a row that was read as running and owned.
unfoldable pub recover_row : ℕ → ℕ → ℕ → Row → Metadata → Db → Db
unfolding update_row
recover_row now id owner seen missing db =
    if is_expired now seen then update_row true id owner seen db else db
recover_row now id owner seen finished db = update_row false id owner seen db
recover_row now id owner seen alive db = db
recover_row now id owner seen unavailable db = db
