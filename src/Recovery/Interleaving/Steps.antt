-- ===== src/Recovery/Interleaving/Steps.antt =====
-- Every step keeps the invariant.
use kor_travel_transport.Prelude.{
  ℕ, ◌≡◌, ◌⊎◌, inl, inr, refl, sym, ◌∙◌, ap, subst, true, false, Option, none, some, ◌∷◌, ◌++◌,
  arith, Bool-cases, Option-cases, ==_iff, ◌==◌, keep, not, if◌then◌else◌,
}
use kor_travel_transport.Recovery.{
  Row, Status, Lease, Session, Metadata, has, is_running, before_flush, before_commit, after_commit,
  after_rollback, recover_row,
}
use kor_travel_transport.Recovery.Rows.{recover-other, recover-live}
use kor_travel_transport.Recovery.Fencing.{is_live, Fences}
use kor_travel_transport.Recovery.Interleaving.{
  World, view, lease, flushed, committing, published, commit_to, rollback_to, edit_to, IsChange,
  IsKnown, Step, Reach, flush, edit, commit, rollback, flush_raises, commit_raises, recover, here,
  next,
}
use kor_travel_transport.Recovery.Interleaving.Invariant.{
  has-append-cases, has-keep, has-kept, Owns, OwnsAt, IsSafe, Owns-committed, untouched-Owns,
  by_session, fenced_ok, fence_same, view-tracks,
}
use kor_travel_transport.Recovery.Interleaving.Flush.{flush-IsSafe}

abbrev pub self : (k : ℕ) → (k == k) ≡ true
self k = (==_iff k k).1 refl

module _ (w : World) (k id : ℕ) (row : Row) (change : IsChange (w.sessions k) (w.made k) id row)
    (o : OwnsAt w k) where
  touched-cases :
      (j : ℕ) → has (id ∷ w.touched k) j ≡ true → (id ≡ j) ⊎ (has (w.touched k) j ≡ true)
  touched-cases j h = ground arith

  edited-made : has (w.made k) id ≡ true
  edited-made = elim change [
    | inl fenced ↦ o.runs_made id (o.fenced_runs id fenced)
    | inr left ↦ left.0
  ]

  edited-tracks :
      (j : ℕ)
      → has (w.made k) j ≡ true
      → is_live (if j == id then some row else view w k j) ≡ true
      → has (w.sessions k).runs j ≡ true
  edited-tracks j made live = elim (Bool-cases (j == id)) [
    | inl same ↦
        let e = (==_iff j id).0 same in
        let runs : is_running row.status ≡ true = rw same at live in
        elim change [ inl fenced ↦ rw e (o.fenced_runs id fenced) | inr left ↦ cc (left.2) ]
    | inr other ↦ view-tracks w k o j made (rw other at live)
  ]

  edit-Owns :
      Owns w.committed
        (w.sessions k)
        (w.made k)
        (id ∷ w.touched k)
        (λ j. if j == id then some row else view w k j)
  edit-Owns =
      let inside : (j : ℕ) → has (id ∷ w.touched k) j ≡ true → has (w.made k) j ≡ true = λ j h.
        elim (touched-cases j h) [
          | inl same ↦ subst (λ i. has (w.made k) i ≡ true) same edited-made
          | inr old ↦ o.touched_made j old
        ] in
      record {
        rows = λ j h. elim (touched-cases j h) [
          | inl same ↦
              subst
                (λ i.
                  (is_live (w.committed i) ≡ true)
                  ⊎ ((w.committed i ≡ none)
                      ⊎ ((has (w.made k) i ≡ true) × (has (w.sessions k).runs i ≡ false))))
                same
                (elim change [
                  | inl fenced ↦ o.rows id (o.fenced_touched id fenced)
                  | inr left ↦ inr (inr (left.0, left.1))
                ])
          | inr old ↦ o.rows j old
        ];
        fenced_touched = λ j h. let old = o.fenced_touched j h in ground (arith, old);
        fenced_runs = o.fenced_runs;
        runs_made = o.runs_made;
        touched_made = inside;
        new_touched = λ j h. let old = o.new_touched j h in ground (arith, old);
        new_none = o.new_none;
        tracks = o.tracks;
        tracks_local = λ j h live. edited-tracks j (inside j h) live;
      }

  edit-IsSafe : IsSafe w → IsSafe (edit_to w k id row)
  unfolding edit_to
  edit-IsSafe safe = record {
    owns =
        by_session (OwnsAt (edit_to w k id row)) k (rw (self k) edit-Owns)
          (λ j other. rw other (safe.owns j));
    apart = safe.apart;
  }

-- a rollback with the runs and the new ids that the session had
module _ (w : World) (k : ℕ) (l : Lease) (s : Session) (runs : s.runs ≡ (w.sessions k).runs)
    (new : s.new_ids ≡ (w.sessions k).new_ids) (safe : IsSafe w) where
  pub rollback-tracks :
      (id : ℕ)
      → has (w.sessions k).runs id ≡ true
      → (w.committed id ≡ none → ⊥)
      → has (after_rollback s).runs id ≡ true
  unfolding after_rollback
  rollback-tracks id run there = elim (Bool-cases (has s.new_ids id)) [
    | inl new_one ↦ absurd (there ((safe.owns k).new_none id (rw new at new_one)))
    | inr old ↦ has-kept (λ i. not (has s.new_ids i)) s.runs id (rw runs run) (ap not old)
  ]

  rollback-IsSafe : IsSafe (rollback_to w k l s)
  unfolding rollback_to after_rollback
  rollback-IsSafe =
      let o = safe.owns k in
      record {
        owns =
            by_session (OwnsAt (rollback_to w k l s)) k
              (rw (self k) (
                untouched-Owns w.committed (after_rollback s) (w.made k) (w.local k) refl refl
                  (λ id h.
                    let run = has-keep (λ i. not (has s.new_ids i)) s.runs id h in
                    o.runs_made id (rw runs at run))
                  (λ id made live.
                    rollback-tracks id (o.tracks id made live) (λ gone. cc (rw gone at live)))))
              (λ j other. rw other (safe.owns j));
        apart = safe.apart;
      }

module _ (w : World) (k now : ℕ) (known : ℕ → Option Status)
    (ret : (committing w k now).returned ≡ true)
    (knows : IsKnown (w.sessions k).runs (published w k now) known) (safe : IsSafe w) where
  abbrev after : Session
  after = (committing w k now).session

  fences : Fences (w.sessions k) (view w k) (w.sessions k).runs (committing w k now)
  unfolding before_commit
  fences = fenced_ok now (lease w k) (w.sessions k) (view w k) ret

  written_made : (id : ℕ) → has (after.fenced ++ w.touched k) id ≡ true → has (w.made k) id ≡ true
  written_made id h = elim (has-append-cases after.fenced (w.touched k) id h) [
    | inl locked ↦ elim (fences.fenced_runs id locked) [
      | inl old ↦ (safe.owns k).runs_made id ((safe.owns k).fenced_runs id old)
      | inr run ↦ (safe.owns k).runs_made id run
    ]
    | inr touched ↦ (safe.owns k).touched_made id touched
  ]

  published-other :
      (j id : ℕ)
      → (j == k) ≡ false
      → has (w.made j) id ≡ true
      → published w k now id ≡ w.committed id
  published-other j id other theirs = elim (Bool-cases (has (after.fenced ++ w.touched k) id)) [
    | inl ours ↦
        let same = safe.apart j k id theirs (written_made id ours) in cc ((==_iff j k).1 same)
    | inr away ↦ rw away
  ]

  published-tracks :
      (id : ℕ)
      → has (w.made k) id ≡ true
      → is_live (published w k now id) ≡ true
      → has (w.sessions k).runs id ≡ true
  published-tracks id made live = elim (Bool-cases (has (after.fenced ++ w.touched k) id)) [
    | inl ours ↦
        let seen : is_live ((committing w k now).db id) ≡ true = rw ours at live in
        view-tracks w k (safe.owns k) id made (sym (fences.same_running id) ∙ seen)
    | inr away ↦ (safe.owns k).tracks id made (rw away at live)
  ]

  kept-tracks :
      (id : ℕ)
      → has (w.sessions k).runs id ≡ true
      → is_live (published w k now id) ≡ true
      → has (after_commit known after).runs id ≡ true
  unfolding after_commit
  kept-tracks id run live =
      has-kept (λ i. elim (known i) [ none ↦ true | some status ↦ is_running status ]) after.runs id
        (rw fences.same_runs run)
        (elim (Option-cases (published w k now id)) [
          | inl gone ↦ cc (rw gone at live)
          | inr (r, there) ↦
              let runs : is_running r.status ≡ true = rw there at live in
              elim (knows id r run there) [ inl unknown ↦ rw unknown | inr status ↦ rw status runs ]
        ])

  commit-IsSafe : IsSafe (commit_to w k now known)
  unfolding commit_to after_commit
  commit-IsSafe =
      let o = safe.owns k in
      record {
        owns =
            by_session (OwnsAt (commit_to w k now known)) k
              (rw (self k) (
                untouched-Owns (published w k now) (after_commit known after) (w.made k) (w.local k)
                  refl refl
                  (λ id h.
                    let run =
                      has-keep
                        (λ i. elim (known i) [ none ↦ true | some status ↦ is_running status ])
                        after.runs id h in
                    o.runs_made id (rw fences.same_runs at run))
                  (λ id made live. kept-tracks id (published-tracks id made live) live)))
              (λ j other. rw other (
                Owns-committed (safe.owns j)
                  (λ id h. published-other j id other ((safe.owns j).touched_made id h))
                  (λ id h live. ap is_live (sym (published-other j id other h)) ∙ live)));
        apart = safe.apart;
      }

pub recover-IsSafe :
    {w : World} (now j owner : ℕ) (seen : Row) (m : Metadata)
    → ((k : ℕ) → has (w.touched k) j ≡ false)
    → IsSafe w
    → IsSafe (record w { committed = recover_row now j owner seen m w.committed })
recover-IsSafe {w} now j owner seen m untouched safe = record {
  owns = λ k.
      Owns-committed (safe.owns k)
        (λ id h. elim (Bool-cases (id == j)) [
          | inl same ↦
              let away : has (w.touched k) id ≡ false = rw ((==_iff id j).0 same) (untouched k) in
              cc
          | inr other ↦ recover-other now j owner seen m w.committed id other
        ])
        (λ id h live. recover-live now j owner seen m w.committed id live);
  apart = safe.apart;
}

pub Step-IsSafe : {w w' : World} → Step w w' → IsSafe w → IsSafe w'
unfolding before_flush before_commit
Step-IsSafe {w} (flush k now new status ret fresh) safe =
    flush-IsSafe w k now new status ret fresh (safe.owns k) safe
Step-IsSafe {w} (edit k id row change) safe = edit-IsSafe w k id row change (safe.owns k) safe
Step-IsSafe {w} (commit k now known ret knows) safe = commit-IsSafe w k now known ret knows safe
Step-IsSafe {w} (rollback k) safe = rollback-IsSafe w k (lease w k) (w.sessions k) refl refl safe
Step-IsSafe {w} (flush_raises k now new ret) safe =
    let s = record (w.sessions k) {
      pending = (w.sessions k).pending ++ keep (λ id. not (has (w.sessions k).pending id)) new;
    } in
    let same = fence_same now (lease w k) s (view w k) in
    rollback-IsSafe w k (flushed w k now new).lease (flushed w k now new).session same.0 same.1 safe
Step-IsSafe {w} (commit_raises k now ret) safe =
    let same = fence_same now (lease w k) (w.sessions k) (view w k) in
    rollback-IsSafe w k (committing w k now).lease (committing w k now).session same.0 same.1 safe
Step-IsSafe {w} (recover now j owner seen m untouched) safe =
    recover-IsSafe now j owner seen m untouched safe

pub Reach-IsSafe : {w w' : World} → Reach w w' → IsSafe w → IsSafe w'
Reach-IsSafe here safe = safe
Reach-IsSafe (next run step) safe = Step-IsSafe step (Reach-IsSafe run safe)
