-- ===== src/Recovery/Fencing.antt =====
-- `_fence` on one session: when it returns, what it locks and what it leaves alone.
use kor_travel_transport.Prelude.{
  ℕ, ◌≡◌, ◌↔◌, Bool, Option, none, ◌⊎◌, inl, inr, refl, sym, ap, ◌∙◌, subst, true, false, some,
  List, [], ◌∷◌, arith, All, All-imp, if-true, if-false, Bool-cases, Option-cases, ==_iff, ◌==◌,
}
use kor_travel_transport.Recovery.{
  Row, Db, write, is_held, Lease, Session, has, Outcome, is_running, beat, fence_runs, fence,
}

-- a heartbeat changes nothing of who holds a row
held-beat :
    (now : ℕ) (db : Db) (id : ℕ) (r : Row) (j o : ℕ)
    → db id ≡ some r
    → is_held (write db id (beat now r) j) o ≡ is_held (db j) o
held-beat now db id r j o e = elim (Bool-cases (j == id)) [
  | inl same ↦ let q : db j ≡ some r = ap db ((==_iff j id).0 same) ∙ e in rw (same, q)
  | inr other ↦ rw other
]

-- a row that is there and running
abbrev pub is_live : Option Row → Bool
is_live none = false
is_live (some r) = is_running r.status

live-beat :
    (now : ℕ) (db : Db) (id : ℕ) (r : Row) (j : ℕ)
    → db id ≡ some r
    → is_live (write db id (beat now r) j) ≡ is_live (db j)
live-beat now db id r j e = elim (Bool-cases (j == id)) [
  | inl same ↦ let q : db j ≡ some r = ap db ((==_iff j id).0 same) ∙ e in rw (same, q)
  | inr other ↦ rw other
]

-- the outcome at a row that is not held
abbrev lost_at : Lease → Session → Db → Outcome
lost_at l s db = record {
  lease = record l { revoked = true };
  session = s;
  db = db;
  returned = false;
}

abbrev lock : Session → ℕ → Session
lock s id = record s { fenced = id ∷ s.fenced }

-- Induction over the loop: a run that is fenced is passed over, one that is held is locked, and
-- any other ends it.
module _ (now : ℕ) (l : Lease) (P : Session → Db → List ℕ → Outcome → Type 0)
    (done : (s : Session) (db : Db)
      → P s db [] (record { lease = l; session = s; db = db; returned = true }))
    (skip : (s : Session) (db : Db) (id : ℕ) (ids : List ℕ) (o : Outcome)
      → has s.fenced id ≡ true
      → P s db ids o
      → P s db (id ∷ ids) o)
    (lost : (s : Session) (db : Db) (id : ℕ) (ids : List ℕ)
      → has s.fenced id ≡ false
      → is_held (db id) s.owner ≡ false
      → P s db (id ∷ ids) (lost_at l s db))
    (locks : (s : Session) (db : Db) (id : ℕ) (ids : List ℕ) (r : Row) (o : Outcome)
      → has s.fenced id ≡ false
      → db id ≡ some r
      → is_held (some r) s.owner ≡ true
      → P (lock s id) (write db id (beat now r)) ids o
      → P s db (id ∷ ids) o) where
  fence_ind : (s : Session) (db : Db) (ids : List ℕ) → P s db ids (fence_runs now l s db ids)
  unfolding fence_runs
  fence_ind s db [] = done s db
  fence_ind s db (id ∷ ids) = elim (Bool-cases (has s.fenced id)) [
    | inl fenced ↦
        rw fenced (skip s db id ids (fence_runs now l s db ids) fenced (fence_ind s db ids))
    | inr check ↦ elim (Option-cases (db id)) [
      | inl gone ↦ rw (check, gone) (lost s db id ids check (rw gone))
      | inr (r, found) ↦ elim (Bool-cases (is_held (some r) s.owner)) [
        | inl held ↦
            rw (check, found, held)
              (locks s db id ids r (fence_runs now l (lock s id) (write db id (beat now r)) ids)
                check found held (fence_ind (lock s id) (write db id (beat now r)) ids))
        | inr free ↦ rw (check, found, free) (lost s db id ids check (rw found free))
      ]
    ]
  ]

-- `id` is locked already, or its row is the worker's own
abbrev pub Mine : Session → Db → ℕ → Type 0
Mine s db id = (has s.fenced id ≡ true) ⊎ (is_held (db id) s.owner ≡ true)

-- What the loop guarantees.
pub record Fences (s : Session) (db : Db) (ids : List ℕ) (o : Outcome) : Type 0 where
  pub same_owner : o.session.owner ≡ s.owner
  pub same_runs : o.session.runs ≡ s.runs
  pub same_new_ids : o.session.new_ids ≡ s.new_ids
  pub same_pending : o.session.pending ≡ s.pending
  pub same_running : (j : ℕ) → is_live (o.db j) ≡ is_live (db j)
  pub same_holders : (j owner : ℕ) → is_held (o.db j) owner ≡ is_held (db j) owner
  pub fenced_mine : (j : ℕ) → has o.session.fenced j ≡ true → Mine s db j
  pub fenced_runs :
      (j : ℕ) → has o.session.fenced j ≡ true → (has s.fenced j ≡ true) ⊎ (has ids j ≡ true)
  pub fenced_grows : (j : ℕ) → has s.fenced j ≡ true → has o.session.fenced j ≡ true
  pub writes_fenced : (j : ℕ) → has o.session.fenced j ≡ false → o.db j ≡ db j
  pub all_mine : o.returned ≡ true → All (Mine s db) ids
  pub returns : All (Mine s db) ids → o.returned ≡ true
  pub revokes : o.returned ≡ false → o.lease.revoked ≡ true

has-cons : (ids : List ℕ) (id j : ℕ) → has (id ∷ ids) j ≡ true → (id ≡ j) ⊎ (has ids j ≡ true)
has-cons ids id j h = ground arith

module _ (now : ℕ) (s : Session) (db : Db) (id : ℕ) (r : Row) (found : db id ≡ some r)
    (held : is_held (some r) s.owner ≡ true) where
  Mine-locked : (j : ℕ) → Mine (lock s id) (write db id (beat now r)) j → Mine s db j
  Mine-locked j (inl h) = elim (has-cons s.fenced id j h) [
    | inl same ↦ inr (subst (λ x. is_held (db x) s.owner ≡ true) same (rw found held))
    | inr old ↦ inl old
  ]
  Mine-locked j (inr h) = inr (sym (held-beat now db id r j s.owner found) ∙ h)

  Mine-unlocked : (j : ℕ) → Mine s db j → Mine (lock s id) (write db id (beat now r)) j
  Mine-unlocked j (inl h) = inl (ground arith)
  Mine-unlocked j (inr h) = inr (held-beat now db id r j s.owner found ∙ h)

  unlocked_same :
      (ids : List ℕ) (o : Outcome)
      → Fences (lock s id) (write db id (beat now r)) ids o
      → (j : ℕ) → has o.session.fenced j ≡ false
      → o.db j ≡ db j
  unlocked_same ids o f j h = elim (Bool-cases (j == id)) [
    | inl same ↦
        let locked : has (id ∷ s.fenced) j ≡ true = ground arith in cc (f.fenced_grows j locked)
    | inr other ↦ f.writes_fenced j h ∙ rw other
  ]

  runs_locked :
      (ids : List ℕ) (j : ℕ)
      → (has (id ∷ s.fenced) j ≡ true) ⊎ (has ids j ≡ true)
      → (has s.fenced j ≡ true) ⊎ (has (id ∷ ids) j ≡ true)
  runs_locked ids j (inl h) = elim (has-cons s.fenced id j h) [
    | inl same ↦ inr (ground (arith, same))
    | inr old ↦ inl old
  ]
  runs_locked ids j (inr h) = inr (ground arith)

  Fences-locks :
      (ids : List ℕ) (o : Outcome)
      → Fences (lock s id) (write db id (beat now r)) ids o
      → Fences s db (id ∷ ids) o
  Fences-locks ids o f = record {
    same_owner = f.same_owner;
    same_runs = f.same_runs;
    same_new_ids = f.same_new_ids;
    same_running = λ j. f.same_running j ∙ live-beat now db id r j found;
    fenced_runs = λ j h. runs_locked ids j (f.fenced_runs j h);
    same_pending = f.same_pending;
    same_holders = λ j owner. f.same_holders j owner ∙ held-beat now db id r j owner found;
    fenced_mine = λ j h. Mine-locked j (f.fenced_mine j h);
    fenced_grows = λ j h. f.fenced_grows j (ground arith);
    writes_fenced = λ j h. unlocked_same ids o f j h;
    all_mine = λ ret. (
      inr (rw found held),
      All-imp (Mine (lock s id) (write db id (beat now r))) (Mine s db) Mine-locked ids
          (f.all_mine ret),
    );
    returns = λ all.
        f.returns (
          All-imp (Mine s db) (Mine (lock s id) (write db id (beat now r))) Mine-unlocked ids
            all.1);
    revokes = f.revokes;
  }

Fences-lost :
    (l : Lease) (s : Session) (db : Db) (id : ℕ) (ids : List ℕ)
    → has s.fenced id ≡ false
    → is_held (db id) s.owner ≡ false
    → Fences s db (id ∷ ids) (lost_at l s db)
Fences-lost l s db id ids check free = record {
  same_owner = refl;
  same_runs = refl;
  same_new_ids = refl;
  same_running = λ j. refl;
  fenced_runs = λ j h. inl h;
  same_pending = refl;
  same_holders = λ j owner. refl;
  fenced_mine = λ j h. inl h;
  fenced_grows = λ j h. h;
  writes_fenced = λ j h. refl;
  all_mine = λ ret. cc;
  returns = λ all. elim all.0 [ inl h ↦ cc | inr h ↦ cc ];
  revokes = λ e. refl;
}

-- The loop of `_fence` guarantees `Fences`.
pub fence_runs-Fences :
    (now : ℕ) (l : Lease) (s : Session) (db : Db) (ids : List ℕ)
    → Fences s db ids (fence_runs now l s db ids)
fence_runs-Fences now l =
    fence_ind now l Fences
      (λ s db. record {
        same_owner = refl;
        same_runs = refl;
        same_new_ids = refl;
        same_running = λ j. refl;
        fenced_runs = λ j h. inl h;
        same_pending = refl;
        same_holders = λ j owner. refl;
        fenced_mine = λ j h. inl h;
        fenced_grows = λ j h. h;
        writes_fenced = λ j h. refl;
        all_mine = λ ret. tt;
        returns = λ all. refl;
        revokes = λ e. cc;
      })
      (λ s db id ids o fenced f. record {
        same_owner = f.same_owner;
        same_runs = f.same_runs;
        same_new_ids = f.same_new_ids;
        same_running = f.same_running;
        fenced_runs =
            λ j h. elim (f.fenced_runs j h) [ inl old ↦ inl old | inr new ↦ inr (ground arith) ];
        same_pending = f.same_pending;
        same_holders = f.same_holders;
        fenced_mine = f.fenced_mine;
        fenced_grows = f.fenced_grows;
        writes_fenced = f.writes_fenced;
        all_mine = λ ret. (inl fenced, f.all_mine ret);
        returns = λ all. f.returns all.1;
        revokes = f.revokes;
      })
      (Fences-lost l)
      (λ s db id ids r o check found held f. Fences-locks now s db id r found held ids o f)

module _ (now : ℕ) (l : Lease) (s : Session) (db : Db) where
  abbrev refused : Outcome
  refused = record { lease = l; session = s; db = db; returned = false }

  pub fence_revoked : l.revoked ≡ true → fence now l s db ≡ refused
  unfolding fence
  fence_revoked gone = if-true refused (fence_runs now l s db s.runs) gone

  pub fence_live : l.revoked ≡ false → fence now l s db ≡ fence_runs now l s db s.runs
  unfolding fence
  fence_live live = if-false refused (fence_runs now l s db s.runs) live

  pub revoked_by : (fence now l s db).returned ≡ false → (fence now l s db).lease.revoked ≡ true
  revoked_by h = elim (Bool-cases l.revoked) [
    | inl gone ↦ ap (λ (o : Outcome). o.lease.revoked) (fence_revoked gone) ∙ gone
    | inr live ↦
        subst (λ (o : Outcome). o.returned ≡ false → o.lease.revoked ≡ true) (sym (fence_live live))
          (fence_runs-Fences now l s db s.runs).revokes h
  ]

-- `_fence` returns exactly when the lease is not revoked and each tracked run is locked already or
-- still running under this owner.
pub fence_iff :
    (now : ℕ) (l : Lease) (s : Session) (db : Db)
    → ((fence now l s db).returned ≡ true) ↔ ((l.revoked ≡ false) × All (Mine s db) s.runs)
fence_iff now l s db = elim (Bool-cases l.revoked) [
  | inl gone ↦ (
    (λ h. cc (ap (λ (o : Outcome). o.returned) (fence_revoked now l s db gone))),
    (λ h. cc (h.0)),
  )
  | inr live ↦
      subst (λ (o : Outcome). (o.returned ≡ true) ↔ ((l.revoked ≡ false) × All (Mine s db) s.runs))
        (sym (fence_live now l s db live))
        (
          (λ h. (live, (fence_runs-Fences now l s db s.runs).all_mine h)),
          (λ h. (fence_runs-Fences now l s db s.runs).returns h.1),
        )
]
