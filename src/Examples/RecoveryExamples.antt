-- ===== src/Examples/RecoveryExamples.antt =====
-- A worker whose run was taken back.
use kor_travel_transport.Prelude.{
  ◌≡◌, ◌⊎◌, refl, ◌↔◌, ℕ, zero, suc, All, true, false, none, some, List, [], ◌∷◌, ◌==◌,
  if◌then◌else◌,
}
use kor_travel_transport.Recovery.{
  Row, Db, Lease, Session, running, failed, has, fence, before_commit, finished, recover_row,
  update_row,
}
use kor_travel_transport.Recovery.Fencing.{Mine, fence_iff}
use kor_travel_transport.Recovery.Revoked.{
  Call, flushes, commits, handled, AllRefused, handled_revokes_all,
}
use kor_travel_transport.Recovery.Interleaving.{
  World, Reach, here, next, commit_raises, committing, rollback_to,
}
use kor_travel_transport.Recovery.Interleaving.Invariant.{OwnsAt, IsSafe}
use kor_travel_transport.Recovery.Interleaving.Settled.{sensed, taken_back_stays}

abbrev worker : Session
worker = record { owner = 7; runs = 1 ∷ []; fenced = []; new_ids = []; pending = [] }

-- a session that has no run
abbrev idle : ℕ → Session
idle owner = record { owner = owner; runs = []; fenced = []; new_ids = []; pending = [] }

abbrev of_seven : Lease
of_seven = record { run_id = 7; revoked = false }

abbrev at_work : Row
at_work = record {
  status = running;
  orchestrator_run_id = some 7;
  heartbeat_at = some 5;
  started_at = 5;
}

abbrev taken_back : Row
taken_back = record at_work { status = failed }

abbrev before_recovery : Db
before_recovery id = if id == 1 then some at_work else none

abbrev after_recovery : Db
after_recovery id = if id == 1 then some taken_back else none

-- the worker's own next fence raises
fence_iff_example :
    ((fence 9 of_seven worker after_recovery).returned ≡ true)
    ↔ ((of_seven.revoked ≡ false) × All (Mine worker after_recovery) worker.runs)
fence_iff_example = fence_iff 9 of_seven worker after_recovery

abbrev late_commit : Call
late_commit = commits 9 worker after_recovery

-- another session of the operation, with and without a new run
abbrev later_calls : List Call
later_calls = flushes 10 (3 ∷ []) (idle 7) before_recovery ∷ commits 11 (idle 7) after_recovery ∷ []

handled_revokes_all_example :
    ((handled of_seven late_commit).lease.revoked ≡ true)
    × AllRefused (handled of_seven late_commit).lease later_calls
handled_revokes_all_example =
    handled_revokes_all of_seven late_commit later_calls (unfold before_commit fence in refl)

abbrev session_of : ℕ → Session
session_of zero = worker
session_of (suc k) = idle 8

abbrev made_by : ℕ → List ℕ
made_by zero = 1 ∷ []
made_by (suc k) = []

abbrev busy : World
busy = record {
  leases = λ k. of_seven;
  lease_of = λ k. k;
  sessions = session_of;
  made = made_by;
  touched = λ k. [];
  local = λ k id. none;
  committed = before_recovery;
}

busy-Owns : (k : ℕ) → OwnsAt busy k
busy-Owns zero = record {
  rows = λ id h. cc;
  fenced_touched = λ id h. cc;
  fenced_runs = λ id h. cc;
  runs_made = λ id h. h;
  touched_made = λ id h. cc;
  new_touched = λ id h. cc;
  new_none = λ id h. cc;
  tracks = λ id h live. h;
  tracks_local = λ id h live. cc;
}
busy-Owns (suc k) = record {
  rows = λ id h. cc;
  fenced_touched = λ id h. cc;
  fenced_runs = λ id h. cc;
  runs_made = λ id h. cc;
  touched_made = λ id h. cc;
  new_touched = λ id h. cc;
  new_none = λ id h. cc;
  tracks = λ id h live. cc;
  tracks_local = λ id h live. cc;
}

busy-apart : (j k id : ℕ) → has (made_by j) id ≡ true → has (made_by k) id ≡ true → j ≡ k
busy-apart zero zero id h h' = refl
busy-apart zero (suc k) id h h' = cc
busy-apart (suc j) k id h h' = cc

busy-IsSafe : IsSafe busy
busy-IsSafe = record { owns = busy-Owns; apart = busy-apart }

abbrev recovered : World
recovered = sensed busy 20 1 7 at_work finished

-- the worker comes back and tries to publish
abbrev refused : World
refused =
    rollback_to recovered 0 (committing recovered 0 25).lease (committing recovered 0 25).session

tried : Reach recovered refused
unfolding recover_row update_row
tried = next here (commit_raises 0 25 (unfold before_commit fence in refl))

taken_back_stays_example :
    (refused.committed 1 ≡ some taken_back)
    × ((has (refused.made 0) 1 ≡ false) ⊎ ((committing refused 0 30).returned ≡ false))
taken_back_stays_example =
    taken_back_stays busy-IsSafe here 20 1 7 at_work finished taken_back (λ k. refl) refl
      (unfold recover_row update_row in refl) refl tried 0 30
