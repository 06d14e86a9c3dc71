-- ===== src/Recovery/Interleaving.antt =====
-- Sessions of workers and the recovery sensor interleaved over one database. Each session has one
-- transaction at a time. A row that a transaction has locked or written is `touched`: the sensor waits
-- for it until the commit or the rollback, and others see it as it was committed. The scheduler is free
-- to choose the next step. The database gives a new run an id that no run, not even one that was rolled
-- back, has had. A service changes only the runs that its own session made, as all of app/services do.
pub mod Invariant
pub mod Flush
pub mod Steps
pub mod Settled
use kor_travel_transport.Prelude.{
  ℕ, ◌≡◌, ◌⊎◌, Bool, true, false, Option, none, some, List, [], ◌∷◌, ◌++◌, ◌==◌, if◌then◌else◌,
  keep,
}
use kor_travel_transport.Recovery.{
  Status, Row, Db, write, Lease, Session, Outcome, has, is_running, Metadata, before_flush,
  insert_pending, capture_runs, before_commit, after_commit, after_rollback, recover_row,
}

-- `made` are the runs that a session has inserted; the sessions of one operation share a lease.
pub record World : Type 0 where
  pub leases : ℕ → Lease
  pub lease_of : ℕ → ℕ
  pub sessions : ℕ → Session
  pub made : ℕ → List ℕ
  pub touched : ℕ → List ℕ
  pub local : ℕ → Db
  pub committed : Db

-- what a session's transaction reads
abbrev pub view : World → ℕ → Db
view w k id = if has (w.touched k) id then w.local k id else w.committed id

abbrev pub at {ℓ} : {A : Type ℓ} → (ℕ → A) → ℕ → A → ℕ → A
at f k a j = if j == k then a else f j

abbrev pub lease : World → ℕ → Lease
lease w k = w.leases (w.lease_of k)

abbrev pub flushed : World → ℕ → ℕ → List ℕ → Outcome
flushed w k now new = before_flush now new (lease w k) (w.sessions k) (view w k)

pub flush_to : World → ℕ → ℕ → List ℕ → (ℕ → Status) → World
flush_to w k now new status =
    let o = flushed w k now new in
    record w {
      leases = at w.leases (w.lease_of k) o.lease;
      sessions = at w.sessions k (capture_runs status o.session);
      made = at w.made k (o.session.pending ++ w.made k);
      touched = at w.touched k (o.session.fenced ++ (o.session.pending ++ w.touched k));
      local = at w.local k (insert_pending now o.session.owner status o.session.pending o.db);
    }

abbrev pub committing : World → ℕ → ℕ → Outcome
committing w k now = before_commit now (lease w k) (w.sessions k) (view w k)

-- the rows after a commit
abbrev pub published : World → ℕ → ℕ → Db
published w k now id =
    let o = committing w k now in
    if has (o.session.fenced ++ w.touched k) id then o.db id else w.committed id

pub commit_to : World → ℕ → ℕ → (ℕ → Option Status) → World
commit_to w k now known =
    let o = committing w k now in
    record w {
      leases = at w.leases (w.lease_of k) o.lease;
      sessions = at w.sessions k (after_commit known o.session);
      touched = at w.touched k [];
      committed = published w k now;
    }

-- a rollback, with the lease and the session that an exception left, or those that there were
pub rollback_to : World → ℕ → Lease → Session → World
rollback_to w k l s = record w {
  leases = at w.leases (w.lease_of k) l;
  sessions = at w.sessions k (after_rollback s);
  touched = at w.touched k [];
}

-- a row that a session changes
pub edit_to : World → ℕ → ℕ → Row → World
edit_to w k id row = record w {
  touched = at w.touched k (id ∷ w.touched k);
  local = at w.local k (write (view w k) id row);
}

-- A session may change a run that it has fenced, its end included, and one that it made and whose
-- end it has committed, which no fence checks any more; such a run does not start again.
abbrev pub IsChange : Session → List ℕ → ℕ → Row → Type 0
IsChange s made id row =
    (has s.fenced id ≡ true)
    ⊎ ((has made id ≡ true) × (has s.runs id ≡ false) × (is_running row.status ≡ false))

-- What the session knows of the status of a run that it tracks is what it has written or read.
abbrev pub IsKnown : List ℕ → Db → (ℕ → Option Status) → Type 0
IsKnown runs db known =
    (id : ℕ) (r : Row)
    → has runs id ≡ true
    → db id ≡ some r
    → (known id ≡ none) ⊎ (known id ≡ some r.status)

-- No session has made a run of these ids, and none is in the database.
abbrev pub IsFresh : World → List ℕ → Type 0
IsFresh w ids =
    (id : ℕ) → has ids id ≡ true → (w.committed id ≡ none) × ((j : ℕ) → has (w.made j) id ≡ false)

pub data Step (w : World) : World → Type 0 where
  flush :
      (k now : ℕ) (new : List ℕ) (status : ℕ → Status)
      → (flushed w k now new).returned ≡ true
      → IsFresh w (flushed w k now new).session.pending
      → Step w (flush_to w k now new status)
  edit :
      (k id : ℕ) (row : Row)
      → IsChange (w.sessions k) (w.made k) id row
      → Step w (edit_to w k id row)
  commit :
      (k now : ℕ) (known : ℕ → Option Status)
      → (committing w k now).returned ≡ true
      → IsKnown (w.sessions k).runs (published w k now) known
      → Step w (commit_to w k now known)
  rollback : (k : ℕ) → Step w (rollback_to w k (lease w k) (w.sessions k))
  flush_raises :
      (k now : ℕ) (new : List ℕ)
      → (flushed w k now new).returned ≡ false
      → Step w (rollback_to w k (flushed w k now new).lease (flushed w k now new).session)
  commit_raises :
      (k now : ℕ)
      → (committing w k now).returned ≡ false
      → Step w (rollback_to w k (committing w k now).lease (committing w k now).session)
  -- The UPDATE waits for a touched row. `seen` is the row as it was read, at any time before.
  recover :
      (now id owner : ℕ) (seen : Row) (m : Metadata)
      → ((k : ℕ) → has (w.touched k) id ≡ false)
      → Step w (record w { committed = recover_row now id owner seen m w.committed })

pub data Reach (w : World) : World → Type 0 where
  here : Reach w w
  next : {u v : World} → Reach w u → Step u v → Reach w v
