-- ===== src/Recovery/Interleaving/Flush.antt =====
-- A flush keeps the invariant.
use kor_travel_transport.Prelude.{
  ℕ, ◌≡◌, ◌⊎◌, inl, inr, refl, some, sym, ◌∙◌, true, false, none, List, [], ◌∷◌, ◌++◌, arith,
  Bool-cases, ==_iff, ◌==◌, keep, not,
}
use kor_travel_transport.Recovery.{
  Db, Row, write, Status, Session, has, is_running, before_flush, insert_pending, capture_runs,
}
use kor_travel_transport.Recovery.Fencing.{is_live, Fences}
use kor_travel_transport.Recovery.Interleaving.{World, view, at, lease, flushed, flush_to, IsFresh}
use kor_travel_transport.Recovery.Interleaving.Invariant.{
  has-append-left, has-append-right, has-append-cases, has-keep, Owns, OwnsAt, IsSafe, by_session,
  fenced_ok, Mine-touched,
}

insert_pending-live :
    (now owner : ℕ) (status : ℕ → Status) (ids : List ℕ) (db : Db) (id : ℕ)
    → is_live (insert_pending now owner status ids db id) ≡ true
    → (has (keep (λ i. is_running (status i)) ids) id ≡ true) ⊎ (is_live (db id) ≡ true)
unfolding insert_pending
insert_pending-live now owner status [] db id h = inr h
insert_pending-live now owner status (i ∷ ids) db id h =
    let row : Row = record {
      status = status i;
      orchestrator_run_id = some owner;
      heartbeat_at = some now;
      started_at = now;
    } in
    elim (insert_pending-live now owner status ids (write db i row) id h) [
      | inl later ↦ inl (ground (arith, later))
      | inr here ↦ elim (Bool-cases (id == i)) [
        | inl same ↦ inl (
            let runs : is_running (status i) ≡ true = rw same at here in
            let eq : (i == id) ≡ true = ground (arith, same) in ground (arith, runs, eq))
        | inr other ↦ inr (rw other at here)
      ]
    ]

module _ (w : World) (k now : ℕ) (new : List ℕ) (status : ℕ → Status)
    (ret : (flushed w k now new).returned ≡ true)
    (fresh : IsFresh w (flushed w k now new).session.pending) (o : OwnsAt w k) where
  abbrev after : Session
  after = (flushed w k now new).session

  abbrev started : List ℕ
  started = keep (λ id. is_running (status id)) after.pending

  pending_session : Session
  pending_session = record (w.sessions k) {
    pending = (w.sessions k).pending ++ keep (λ id. not (has (w.sessions k).pending id)) new;
  }

  fences : Fences pending_session (view w k) (w.sessions k).runs (flushed w k now new)
  unfolding before_flush pending_session
  fences = fenced_ok now (lease w k) pending_session (view w k) ret

  runs_grow : (id : ℕ) → has (w.sessions k).runs id ≡ true → has (after.runs ++ started) id ≡ true
  unfolding pending_session
  runs_grow id h = has-append-left after.runs started id (rw fences.same_runs h)

  started_pending : (id : ℕ) → has started id ≡ true → has after.pending id ≡ true
  started_pending id h = has-keep (λ i. is_running (status i)) after.pending id h

  fenced_mine : (id : ℕ) → has after.fenced id ≡ true → has (w.sessions k).runs id ≡ true
  unfolding pending_session
  fenced_mine id h = elim (fences.fenced_runs id h) [
    | inl old ↦ o.fenced_runs id old
    | inr run ↦ run
  ]

  made_grow : (id : ℕ) → has (w.made k) id ≡ true → has (after.pending ++ w.made k) id ≡ true
  made_grow id h = has-append-right after.pending (w.made k) id h

  -- what may be touched
  abbrev Open : ℕ → Type 0
  Open id =
      (is_live (w.committed id) ≡ true)
      ⊎ ((w.committed id ≡ none)
          ⊎ ((has (after.pending ++ w.made k) id ≡ true)
              × (has (after.runs ++ started) id ≡ false)))

  Open-touched : (id : ℕ) → has (w.touched k) id ≡ true → Open id
  unfolding pending_session
  Open-touched id h = elim (o.rows id h) [
    | inl live ↦ inl live
    | inr rest ↦ elim rest [
      | inl gone ↦ inr (inl gone)
      | inr left ↦ elim (Bool-cases (has after.pending id)) [
        | inl now ↦ inr (inl (fresh id now).0)
        | inr other ↦ elim (Bool-cases (has (after.runs ++ started) id)) [
          | inl there ↦ elim (has-append-cases after.runs started id there) [
            | inl run ↦ cc (rw fences.same_runs at run)
            | inr start ↦ cc (started_pending id start)
          ]
          | inr away ↦ inr (inr (made_grow id left.0, away))
        ]
      ]
    ]
  ]

  Open-fenced : (id : ℕ) → has after.fenced id ≡ true → Open id
  unfolding pending_session
  Open-fenced id h = elim (Mine-touched w k o pending_session id refl (fences.fenced_mine id h)) [
    | inl touched ↦ Open-touched id touched
    | inr live ↦ inl live
  ]

  abbrev ids : List ℕ
  ids = after.fenced ++ (after.pending ++ w.touched k)

  ids-cases :
      (id : ℕ)
      → has ids id ≡ true
      → (has after.fenced id ≡ true)
        ⊎ ((has after.pending id ≡ true) ⊎ (has (w.touched k) id ≡ true))
  ids-cases id h = elim (has-append-cases after.fenced (after.pending ++ w.touched k) id h) [
    | inl locked ↦ inl locked
    | inr rest ↦ inr (has-append-cases after.pending (w.touched k) id rest)
  ]

  touched_ids : (id : ℕ) → has (w.touched k) id ≡ true → has ids id ≡ true
  touched_ids id h =
      has-append-right after.fenced (after.pending ++ w.touched k) id
        (has-append-right after.pending (w.touched k) id h)

  started-ids : (id : ℕ) → has started id ≡ true → has ids id ≡ true
  started-ids id h =
      has-append-right after.fenced (after.pending ++ w.touched k) id
        (has-append-left after.pending (w.touched k) id (started_pending id h))

  ids_made : (id : ℕ) → has ids id ≡ true → has (after.pending ++ w.made k) id ≡ true
  ids_made id h = elim (ids-cases id h) [
    | inl locked ↦ made_grow id (o.runs_made id (fenced_mine id locked))
    | inr rest ↦ elim rest [
      | inl pending ↦ has-append-left after.pending (w.made k) id pending
      | inr touched ↦ made_grow id (o.touched_made id touched)
    ]
  ]

  tracks_made :
      (id : ℕ)
      → has (after.pending ++ w.made k) id ≡ true
      → is_live (w.committed id) ≡ true
      → has (after.runs ++ started) id ≡ true
  tracks_made id h live = elim (has-append-cases after.pending (w.made k) id h) [
    | inl pending ↦ cc (rw (fresh id pending).0 at live)
    | inr made ↦ runs_grow id (o.tracks id made live)
  ]

  tracks_seen :
      (id : ℕ)
      → has ids id ≡ true
      → is_live (view w k id) ≡ true
      → has (after.runs ++ started) id ≡ true
  tracks_seen id h live = elim (Bool-cases (has (w.touched k) id)) [
    | inl mine ↦ runs_grow id (o.tracks_local id mine (rw mine at live))
    | inr other ↦ tracks_made id (ids_made id h) (rw other at live)
  ]

  flush-Owns :
      Owns w.committed
        (capture_runs status after)
        (after.pending ++ w.made k)
        ids
        (insert_pending now after.owner status after.pending (flushed w k now new).db)
  unfolding capture_runs pending_session
  flush-Owns = record {
    rows = λ id h. elim (ids-cases id h) [
      | inl locked ↦ Open-fenced id locked
      | inr rest ↦ elim rest [
        | inl pending ↦ inr (inl (fresh id pending).0)
        | inr touched ↦ Open-touched id touched
      ]
    ];
    fenced_touched = λ id h. elim (has-append-cases after.fenced started id h) [
      | inl locked ↦ has-append-left after.fenced (after.pending ++ w.touched k) id locked
      | inr start ↦ started-ids id start
    ];
    fenced_runs = λ id h. elim (has-append-cases after.fenced started id h) [
      | inl locked ↦ runs_grow id (fenced_mine id locked)
      | inr start ↦ has-append-right after.runs started id start
    ];
    runs_made = λ id h. elim (has-append-cases after.runs started id h) [
      | inl run ↦ made_grow id (o.runs_made id (rw fences.same_runs at run))
      | inr start ↦ has-append-left after.pending (w.made k) id (started_pending id start)
    ];
    touched_made = ids_made;
    new_touched = λ id h. elim (has-append-cases after.new_ids started id h) [
      | inl old ↦ touched_ids id (o.new_touched id (rw fences.same_new_ids at old))
      | inr start ↦ started-ids id start
    ];
    new_none = λ id h. elim (has-append-cases after.new_ids started id h) [
      | inl old ↦ o.new_none id (rw fences.same_new_ids at old)
      | inr start ↦ (fresh id (started_pending id start)).0
    ];
    tracks = tracks_made;
    tracks_local = λ id h live.
        elim (insert_pending-live now after.owner status after.pending (flushed w k now new).db id
          live) [
            | inl start ↦ has-append-right after.runs started id start
            | inr seen ↦ tracks_seen id h (sym (fences.same_running id) ∙ seen)
          ];
  }

  made_apart :
      IsSafe w
      → (j id : ℕ) → (j == k) ≡ false
      → has (after.pending ++ w.made k) id ≡ true
      → has (w.made j) id ≡ true
      → j ≡ k
  made_apart safe j id other mine theirs =
      elim (has-append-cases after.pending (w.made k) id mine) [
        | inl pending ↦ let none_made = (fresh id pending).1 j in cc
        | inr made ↦ safe.apart j k id theirs made
      ]

  flush-apart :
      IsSafe w
      → (i j id : ℕ) → has (at w.made k (after.pending ++ w.made k) i) id ≡ true
      → has (at w.made k (after.pending ++ w.made k) j) id ≡ true
      → i ≡ j
  flush-apart safe i j id hi hj = elim (Bool-cases (i == k)) [
    | inl ik ↦ elim (Bool-cases (j == k)) [
      | inl jk ↦ (==_iff i k).0 ik ∙ sym ((==_iff j k).0 jk)
      | inr other ↦
          (==_iff i k).0 ik ∙ sym (made_apart safe j id other (rw ik at hi) (rw other at hj))
    ]
    | inr other ↦ elim (Bool-cases (j == k)) [
      | inl jk ↦ made_apart safe i id other (rw jk at hj) (rw other at hi) ∙ sym ((==_iff j k).0 jk)
      | inr other' ↦ safe.apart i j id (rw other at hi) (rw other' at hj)
    ]
  ]

  pub flush-IsSafe : IsSafe w → IsSafe (flush_to w k now new status)
  unfolding flush_to
  flush-IsSafe safe =
      let self : (k == k) ≡ true = (==_iff k k).1 refl in
      record {
        owns =
            by_session (OwnsAt (flush_to w k now new status)) k (rw self flush-Owns)
              (λ j other. rw other (safe.owns j));
        apart = flush-apart safe;
      }
