-- ===== src/Recovery/Interleaving/Invariant.antt =====
-- What holds of every interleaving. A row that a transaction has touched is running in the database, not
-- there yet, or one whose end its session has committed; a running run is tracked by the session that
-- made it.
use kor_travel_transport.Prelude.{
  ℕ, ◌≡◌, ◌⊎◌, inl, inr, refl, sym, ◌∙◌, ap, subst, Bool, true, false, Option, none, some, List, [],
  ◌∷◌, ◌++◌, arith, Bool-cases, ==_iff, ◌==◌, ◌||◌, or-cases, keep, All,
}
use kor_travel_transport.Recovery.{Row, Db, Lease, Session, has, is_held, fence}
use kor_travel_transport.Recovery.Fencing.{
  is_live, Mine, Fences, fence_runs-Fences, fence_live, fence_iff, fence_revoked,
}
use kor_travel_transport.Recovery.Interleaving.{World, view}

pub has-append : (xs ys : List ℕ) (id : ℕ) → has (xs ++ ys) id ≡ (has xs id || has ys id)
has-append [] ys id = refl
has-append (x ∷ xs) ys id = ground (arith, has-append xs ys id)

pub has-append-left : (xs ys : List ℕ) (id : ℕ) → has xs id ≡ true → has (xs ++ ys) id ≡ true
has-append-left xs ys id h = rw (has-append, h)

pub has-append-right : (xs ys : List ℕ) (id : ℕ) → has ys id ≡ true → has (xs ++ ys) id ≡ true
has-append-right xs ys id h = has-append xs ys id ∙ ground arith

pub has-append-cases :
    (xs ys : List ℕ) (id : ℕ) → has (xs ++ ys) id ≡ true → (has xs id ≡ true) ⊎ (has ys id ≡ true)
has-append-cases xs ys id h = or-cases (has xs id) (has ys id) (sym (has-append xs ys id) ∙ h)

pub has-keep : (p : ℕ → Bool) (xs : List ℕ) (id : ℕ) → has (keep p xs) id ≡ true → has xs id ≡ true
has-keep p [] id h = h
has-keep p (x ∷ xs) id h = ground (arith, has-keep p xs id)

pub has-kept :
    (p : ℕ → Bool) (xs : List ℕ) (id : ℕ)
    → has xs id ≡ true
    → p id ≡ true
    → has (keep p xs) id ≡ true
has-kept p [] id h holds = h
has-kept p (x ∷ xs) id h holds = elim (Bool-cases (x == id)) [
  | inl same ↦
      let here : p x ≡ true = ap p ((==_iff x id).0 same) ∙ holds in ground (arith, here, same)
  | inr other ↦ ground (arith, other, h, has-kept p xs id)
]

pub has-All : (P : ℕ → Type 0) (xs : List ℕ) (id : ℕ) → All P xs → has xs id ≡ true → P id
has-All P [] id h there = cc
has-All P (x ∷ xs) id h there = elim (Bool-cases (x == id)) [
  | inl same ↦ subst P ((==_iff x id).0 same) h.0
  | inr other ↦ has-All P xs id h.1 (rw other at there)
]

pub held-live : (o : Option Row) (owner : ℕ) → is_held o owner ≡ true → is_live o ≡ true
held-live none owner h = cc
held-live (some r) owner h = ground arith

-- The rows and the runs of one session.
pub record Owns (committed : Db) (s : Session) (made touched : List ℕ) (local : Db) : Type 0 where
  pub rows :
      (id : ℕ)
      → has touched id ≡ true
      → (is_live (committed id) ≡ true)
        ⊎ ((committed id ≡ none) ⊎ ((has made id ≡ true) × (has s.runs id ≡ false)))
  pub fenced_touched : (id : ℕ) → has s.fenced id ≡ true → has touched id ≡ true
  pub fenced_runs : (id : ℕ) → has s.fenced id ≡ true → has s.runs id ≡ true
  pub runs_made : (id : ℕ) → has s.runs id ≡ true → has made id ≡ true
  pub touched_made : (id : ℕ) → has touched id ≡ true → has made id ≡ true
  pub new_touched : (id : ℕ) → has s.new_ids id ≡ true → has touched id ≡ true
  pub new_none : (id : ℕ) → has s.new_ids id ≡ true → committed id ≡ none
  pub tracks : (id : ℕ) → has made id ≡ true → is_live (committed id) ≡ true → has s.runs id ≡ true
  pub tracks_local :
      (id : ℕ) → has touched id ≡ true → is_live (local id) ≡ true → has s.runs id ≡ true

abbrev pub OwnsAt : World → ℕ → Type 0
OwnsAt w k = Owns w.committed (w.sessions k) (w.made k) (w.touched k) (w.local k)

-- and of all sessions together: no two have made one run
pub record IsSafe (w : World) : Type 0 where
  pub owns : (k : ℕ) → OwnsAt w k
  pub apart : (j k id : ℕ) → has (w.made j) id ≡ true → has (w.made k) id ≡ true → j ≡ k

-- Other sessions' commits and the sensor change no touched row and start no run.
pub Owns-committed :
    {c c' : Db} {s : Session} {made touched : List ℕ} {local : Db}
    → Owns c s made touched local
    → ((id : ℕ) → has touched id ≡ true → c' id ≡ c id)
    → ((id : ℕ) → has made id ≡ true → is_live (c' id) ≡ true → is_live (c id) ≡ true)
    → Owns c' s made touched local
Owns-committed {c} {c'} {s} {made} o same live = record {
  rows = λ id h.
      subst
        (λ r. (is_live r ≡ true) ⊎ ((r ≡ none) ⊎ ((has made id ≡ true) × (has s.runs id ≡ false))))
        (sym (same id h)) (o.rows id h);
  fenced_touched = o.fenced_touched;
  fenced_runs = o.fenced_runs;
  runs_made = o.runs_made;
  touched_made = o.touched_made;
  new_touched = o.new_touched;
  new_none = λ id h. same id (o.new_touched id h) ∙ o.new_none id h;
  tracks = λ id h l. o.tracks id h (live id h l);
  tracks_local = o.tracks_local;
}

-- A session without a transaction.
pub untouched-Owns :
    (c : Db) (s : Session) (made : List ℕ) (local : Db)
    → s.fenced ≡ []
    → s.new_ids ≡ []
    → ((id : ℕ) → has s.runs id ≡ true → has made id ≡ true)
    → ((id : ℕ) → has made id ≡ true → is_live (c id) ≡ true → has s.runs id ≡ true)
    → Owns c s made [] local
untouched-Owns c s made local f n inside tracked = record {
  rows = λ id h. cc;
  fenced_touched = λ id h. rw f at h;
  fenced_runs = λ id h. cc (rw f at h);
  runs_made = inside;
  touched_made = λ id h. cc;
  new_touched = λ id h. rw n at h;
  new_none = λ id h. cc (rw n at h);
  tracks = tracked;
  tracks_local = λ id h. cc;
}

pub by_session : (P : ℕ → Type 0) (k : ℕ) → P k → ((j : ℕ) → (j == k) ≡ false → P j) → (j : ℕ) → P j
by_session P k mine others j = elim (Bool-cases (j == k)) [
  | inl same ↦ subst P (sym ((==_iff j k).0 same)) mine
  | inr other ↦ others j other
]

-- A returned fence guarantees `Fences`; any fence leaves the runs and the new ids.
pub fenced_ok :
    (now : ℕ) (l : Lease) (s : Session) (db : Db)
    → (fence now l s db).returned ≡ true
    → Fences s db s.runs (fence now l s db)
fenced_ok now l s db h =
    subst (Fences s db s.runs) (sym (fence_live now l s db ((fence_iff now l s db).0 h).0))
      (fence_runs-Fences now l s db s.runs)

pub fence_same :
    (now : ℕ) (l : Lease) (s : Session) (db : Db)
    → ((fence now l s db).session.runs ≡ s.runs) × ((fence now l s db).session.new_ids ≡ s.new_ids)
fence_same now l s db = elim (Bool-cases l.revoked) [
  | inl gone ↦ rw (fence_revoked now l s db gone) (refl, refl)
  | inr live ↦
      let f = fence_runs-Fences now l s db s.runs in
      rw (fence_live now l s db live) (f.same_runs, f.same_new_ids)
]

-- What a session sees as running it tracks; what it sees as its own is running or it has touched it.
module _ (w : World) (k : ℕ) (o : OwnsAt w k) where
  pub view-tracks :
      (id : ℕ)
      → has (w.made k) id ≡ true
      → is_live (view w k id) ≡ true
      → has (w.sessions k).runs id ≡ true
  view-tracks id made live = elim (Bool-cases (has (w.touched k) id)) [
    | inl mine ↦ o.tracks_local id mine (rw mine at live)
    | inr other ↦ o.tracks id made (rw other at live)
  ]

  pub Mine-touched :
      (s : Session) (id : ℕ)
      → s.fenced ≡ (w.sessions k).fenced
      → Mine s (view w k) id
      → (has (w.touched k) id ≡ true) ⊎ (is_live (w.committed id) ≡ true)
  Mine-touched s id same (inl h) = inl (o.fenced_touched id (rw same at h))
  Mine-touched s id same (inr h) = elim (Bool-cases (has (w.touched k) id)) [
    | inl mine ↦ inl mine
    | inr other ↦ inr (held-live (w.committed id) s.owner (rw other at h))
  ]
