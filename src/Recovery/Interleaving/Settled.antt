-- ===== src/Recovery/Interleaving/Settled.antt =====
-- A run that the sensor took back never changes again, and its worker publishes nothing more.
use kor_travel_transport.Prelude.{
  ℕ, ◌≡◌, ◌⊎◌, inl, inr, refl, ◌∙◌, true, false, Option, some, List, ◌++◌, Bool-cases, if-false,
  keep, not,
}
use kor_travel_transport.Recovery.{
  Row, Status, Lease, Session, Metadata, has, is_running, before_flush, before_commit, capture_runs,
  recover_row,
}
use kor_travel_transport.Recovery.Rows.{recover_keeps}
use kor_travel_transport.Recovery.Fencing.{Mine, is_live, fence_iff}
use kor_travel_transport.Recovery.Interleaving.{
  World, view, lease, flushed, flush_to, committing, commit_to, rollback_to, edit_to, IsFresh, Step,
  Reach, flush, edit, commit, rollback, flush_raises, commit_raises, recover, here, next,
}
use kor_travel_transport.Recovery.Interleaving.Invariant.{
  has-append-left, has-append-cases, has-All, IsSafe, by_session, fenced_ok, fence_same,
  Mine-touched,
}
use kor_travel_transport.Recovery.Interleaving.Steps.{
  self, rollback-tracks, recover-IsSafe, Reach-IsSafe,
}

-- A run that is no longer running, while the sessions that made it still track it.
record Settled (w : World) (id : ℕ) (r : Row) : Type 0 where
  there : w.committed id ≡ some r
  tracked : (k : ℕ) → has (w.made k) id ≡ true → has (w.sessions k).runs id ≡ true

module _ (w : World) (safe : IsSafe w) (id : ℕ) (r : Row) (ended : is_running r.status ≡ false)
    (settled : Settled w id r) where
  not_live : is_live (w.committed id) ≡ true → ⊥
  not_live h = cc (rw settled.there at h)

  not_touched : (k : ℕ) → has (w.touched k) id ≡ true → ⊥
  not_touched k h = elim ((safe.owns k).rows id h) [
    | inl live ↦ not_live live
    | inr rest ↦ elim rest [
      | inl gone ↦ cc (settled.there)
      | inr left ↦ cc (settled.tracked k left.0, left.1)
    ]
  ]

  not-Mine : (k : ℕ) → Mine (w.sessions k) (view w k) id → ⊥
  not-Mine k mine = elim (Mine-touched w k (safe.owns k) (w.sessions k) id refl mine) [
    | inl touched ↦ not_touched k touched
    | inr live ↦ not_live live
  ]

  -- the session that made it commits no more
  commits_raise : (k now : ℕ) → has (w.made k) id ≡ true → (committing w k now).returned ≡ false
  unfolding before_commit
  commits_raise k now made = elim (Bool-cases (committing w k now).returned) [
    | inl ret ↦ absurd (
        not-Mine k (
          has-All (Mine (w.sessions k) (view w k)) (w.sessions k).runs id
            ((fence_iff now (lease w k) (w.sessions k) (view w k)).0 ret).1
            (settled.tracked k made)))
    | inr raised ↦ raised
  ]

  commit-Settled :
      (k now : ℕ) (known : ℕ → Option Status)
      → (committing w k now).returned ≡ true
      → Settled (commit_to w k now known) id r
  unfolding commit_to before_commit
  commit-Settled k now known ret = record {
    there = elim (Bool-cases (has ((committing w k now).session.fenced ++ w.touched k) id)) [
      | inl ours ↦
          absurd
            (elim (has-append-cases (committing w k now).session.fenced (w.touched k) id ours) [
              | inl locked ↦
                  not-Mine k (
                    (fenced_ok now (lease w k) (w.sessions k) (view w k) ret).fenced_mine id locked)
              | inr touched ↦ not_touched k touched
            ])
      | inr other ↦ if-false _ _ other ∙ settled.there
    ];
    tracked =
        by_session
          (λ j.
            has (w.made j) id ≡ true → has ((commit_to w k now known).sessions j).runs id ≡ true)
          k (λ made. cc (commits_raise k now made, ret))
          (λ j other made. rw other (settled.tracked j made));
  }

  flush-Settled :
      (k now : ℕ) (new : List ℕ) (status : ℕ → Status)
      → IsFresh w (flushed w k now new).session.pending
      → Settled (flush_to w k now new status) id r
  unfolding flush_to before_flush capture_runs
  flush-Settled k now new status fresh =
      let o = flushed w k now new in
      let s : Session = record (w.sessions k) {
        pending = (w.sessions k).pending ++ keep (λ id. not (has (w.sessions k).pending id)) new;
      } in
      let same = (fence_same now (lease w k) s (view w k)).0 in
      record {
        there = settled.there;
        tracked =
            by_session
              (λ j.
                has ((flush_to w k now new status).made j) id ≡ true
                → has ((flush_to w k now new status).sessions j).runs id ≡ true)
              k
              (rw (self k) (λ h. elim (has-append-cases o.session.pending (w.made k) id h) [
                | inl pending ↦ cc ((fresh id pending).0, settled.there)
                | inr made ↦
                    has-append-left o.session.runs
                      (keep (λ i. is_running (status i)) o.session.pending) id
                      (rw same (settled.tracked k made))
              ]))
              (λ j other. rw other (settled.tracked j));
      }

  rollback-Settled :
      (k : ℕ) (l : Lease) (s : Session)
      → s.runs ≡ (w.sessions k).runs
      → s.new_ids ≡ (w.sessions k).new_ids
      → Settled (rollback_to w k l s) id r
  unfolding rollback_to
  rollback-Settled k l s runs new = record {
    there = settled.there;
    tracked =
        by_session
          (λ j. has (w.made j) id ≡ true → has ((rollback_to w k l s).sessions j).runs id ≡ true) k
          (rw (self k) (λ made.
            rollback-tracks w k l s runs new safe id (settled.tracked k made)
              (λ gone. cc (settled.there))))
          (λ j other made. rw other (settled.tracked j made));
  }

Step-Settled :
    {w w' : World}
    → Step w w'
    → IsSafe w
    → (id : ℕ) (r : Row) → is_running r.status ≡ false
    → Settled w id r
    → Settled w' id r
unfolding edit_to before_flush before_commit
Step-Settled {w} (flush k now new status ret fresh) safe id r ended settled =
    flush-Settled w safe id r ended settled k now new status fresh
Step-Settled (edit k j row change) safe id r ended settled = record {
  there = settled.there;
  tracked = settled.tracked;
}
Step-Settled {w} (commit k now known ret knows) safe id r ended settled =
    commit-Settled w safe id r ended settled k now known ret
Step-Settled {w} (rollback k) safe id r ended settled =
    rollback-Settled w safe id r ended settled k (lease w k) (w.sessions k) refl refl
Step-Settled {w} (flush_raises k now new ret) safe id r ended settled =
    let s : Session = record (w.sessions k) {
      pending = (w.sessions k).pending ++ keep (λ id. not (has (w.sessions k).pending id)) new;
    } in
    let same = fence_same now (lease w k) s (view w k) in
    rollback-Settled w safe id r ended settled k (flushed w k now new).lease
      (flushed w k now new).session same.0 same.1
Step-Settled {w} (commit_raises k now ret) safe id r ended settled =
    let same = fence_same now (lease w k) (w.sessions k) (view w k) in
    rollback-Settled w safe id r ended settled k (committing w k now).lease
      (committing w k now).session same.0 same.1
Step-Settled {w} (recover now j owner seen m untouched) safe id r ended settled = record {
  there = recover_keeps now j owner seen m w.committed id r settled.there ended;
  tracked = settled.tracked;
}

Reach-Settled :
    {w w' : World}
    → Reach w w'
    → IsSafe w
    → (id : ℕ) (r : Row) → is_running r.status ≡ false
    → Settled w id r
    → Settled w' id r
Reach-Settled here safe id r ended settled = settled
Reach-Settled (next run step) safe id r ended settled =
    Step-Settled step (Reach-IsSafe run safe) id r ended (Reach-Settled run safe id r ended settled)

-- the world after the sensor looked at a run
abbrev pub sensed : World → (now id owner : ℕ) → Row → Metadata → World
sensed w now id owner seen m = record w { committed = recover_row now id owner seen m w.committed }

-- Sessions of workers and the sensor go on in any order, from a safe state; a session changes a run
-- while it has fenced it, or without a fence where it made the run and has committed its end. Then the
-- sensor ends a running run that no transaction has touched: whatever they do after that, in any order,
-- the run keeps the row that the sensor left, and each commit of a session that made it raises.
pub taken_back_stays :
    {w u v : World}
    → IsSafe w
    → Reach w u
    → (now id owner : ℕ) (seen : Row) (m : Metadata) (r : Row)
    → ((k : ℕ) → has (u.touched k) id ≡ false)
    → is_live (u.committed id) ≡ true
    → (sensed u now id owner seen m).committed id ≡ some r
    → is_running r.status ≡ false
    → Reach (sensed u now id owner seen m) v
    → (k later : ℕ)
    → (v.committed id ≡ some r)
      × ((has (v.made k) id ≡ false) ⊎ ((committing v k later).returned ≡ false))
taken_back_stays {w} {u} {v} safe before now id owner seen m r untouched live there ended after k
      later =
    let safe_u = Reach-IsSafe before safe in
    let safe_s : IsSafe (sensed u now id owner seen m) =
      recover-IsSafe now id owner seen m untouched safe_u in
    let settled : Settled v id r =
      Reach-Settled after safe_s id r ended
        (record { there = there; tracked = λ j h. (safe_u.owns j).tracks id h live }) in
    (
      settled.there,
      elim (Bool-cases (has (v.made k) id)) [
        | inl made ↦
            inr (commits_raise v (Reach-IsSafe after safe_s) id r ended settled k later made)
        | inr other ↦ inl other
      ],
    )
