-- ===== src/Scan/Sweep.antt =====
-- What `reconcile_collection_runs` does to a run whose owner has finished.
use kor_travel_transport.Prelude.{
  ℕ, zero, suc, ◌+◌, ◌-◌, ◌≤◌, ◌<◌, ◌≡◌, ◌⊎◌, refl, sym, ap, ◌∙◌, subst, true, not, Option, none,
  some, List, [], ◌∷◌, arith, take, Bool-cases, inl, inr, if◌then◌else◌, if-cases, if-both, ◌==◌,
  ==_iff,
}
use kor_travel_transport.Recovery.{
  failed, Row, Db, Metadata, missing, finished, alive, unavailable, recover_row, is_held,
  is_running,
}
use kor_travel_transport.Recovery.Rows.{recover_keeps, recover-other, recover-finished}
use kor_travel_transport.Scan.{
  Found, found_at, running_from, page, Tick, ScanState, after_row, Progress, going, paused,
  metadata_failed, swept, stuck, scan_rows, scan_page, scan_pages, next_page, scan,
}

module _ (t : Tick) (id owner : ℕ) (r : Row) (held : is_held (some r) owner ≡ true)
    (over : (n : ℕ) → t.metadata n owner ≡ finished) where
  abbrev taken_back : Row
  taken_back = record r { status = failed }

  -- The run is ahead of the cursor and untouched, or it has been taken back.
  abbrev Watched : ScanState → Type 0
  Watched s = ((s.cursor < id) × (s.db id ≡ some r)) ⊎ (s.db id ≡ some taken_back)

  -- The rows of a page come to the run, or end before it.
  abbrev Ahead : List Found → Type 0
  Ahead [] = Unit
  Ahead (f ∷ rows) = ((f.id < id) × Ahead rows) ⊎ ((f.id ≡ id) × (f.owner ≡ owner))

  abbrev Kept : Progress → Type 0
  Kept (going s) = Watched s
  Kept (paused s) = Watched s
  Kept (metadata_failed s) = Watched s
  Kept (swept s) = s.db id ≡ some taken_back
  Kept stuck = Unit

  -- once taken back it stays so
  after_row-done :
      (s : ScanState) (f : Found) (m : Metadata)
      → s.db id ≡ some taken_back
      → (after_row t s f m).db id ≡ some taken_back
  unfolding after_row
  after_row-done s f m h =
      recover_keeps (t.now s.calls) f.id f.owner f.seen m s.db id taken_back h refl

  scan_rows-step :
      (P : Progress → Type 0) (s : ScanState) (f : Found) (rows : List Found)
      → P (paused s)
      → P (metadata_failed s)
      → P (scan_rows t (after_row t s f (t.metadata s.calls f.owner)) rows)
      → P (scan_rows t s (f ∷ rows))
  unfolding scan_rows
  scan_rows-step P s f rows p q h =
      if-cases P (not (t.has_budget s.calls)) (λ e. p) (λ e. pick (t.metadata s.calls f.owner))
    where
      pick :
          (m : Metadata)
          → P (elim m [
            | unavailable ↦ metadata_failed s
            | missing ↦ scan_rows t (after_row t s f (t.metadata s.calls f.owner)) rows
            | finished ↦ scan_rows t (after_row t s f (t.metadata s.calls f.owner)) rows
            | alive ↦ scan_rows t (after_row t s f (t.metadata s.calls f.owner)) rows
          ])
      pick unavailable = q
      pick missing = h
      pick finished = h
      pick alive = h

  scan_rows-done :
      (s : ScanState) (rows : List Found) → s.db id ≡ some taken_back → Kept (scan_rows t s rows)
  unfolding scan_rows
  scan_rows-done s [] h = inr h
  scan_rows-done s (f ∷ rows) h = scan_rows-step Kept s f rows (inr h) (inr h) (
      scan_rows-done (after_row t s f (t.metadata s.calls f.owner)) rows
        (after_row-done s f (t.metadata s.calls f.owner) h))

  -- the run's own row takes it back
  after_row-own :
      (s : ScanState) (f : Found)
      → s.db id ≡ some r
      → f.id ≡ id
      → f.owner ≡ owner
      → (after_row t s f (t.metadata s.calls f.owner)).db id ≡ some taken_back
  unfolding after_row
  after_row-own s f there same mine =
      subst (λ m. recover_row (t.now s.calls) f.id f.owner f.seen m s.db id ≡ some taken_back)
        (sym (over s.calls) ∙ ap (t.metadata s.calls) (sym mine))
        (subst
          (λ j. recover_row (t.now s.calls) j f.owner f.seen finished s.db id ≡ some taken_back)
          (sym same)
          (recover-finished (t.now s.calls) id f.owner f.seen r s.db there
            (ap (is_held (some r)) mine ∙ held)))

  after_row-cursor :
      (s : ScanState) (f : Found)
      → f.id < id
      → (after_row t s f (t.metadata s.calls f.owner)).cursor < id
  unfolding after_row
  after_row-cursor s f earlier = earlier

  after_row-other :
      (s : ScanState) (f : Found)
      → f.id < id
      → (after_row t s f (t.metadata s.calls f.owner)).db id ≡ s.db id
  unfolding after_row
  after_row-other s f earlier =
      recover-other (t.now s.calls) f.id f.owner f.seen (t.metadata s.calls f.owner) s.db id
        (ground arith)

  scan_rows-Ahead :
      (s : ScanState) (rows : List Found)
      → s.cursor < id
      → s.db id ≡ some r
      → Ahead rows
      → Kept (scan_rows t s rows)
  unfolding scan_rows
  scan_rows-Ahead s [] before there h = inl (before, there)
  scan_rows-Ahead s (f ∷ rows) before there (inl (earlier, h)) =
      scan_rows-step Kept s f rows (inl (before, there)) (inl (before, there)) (
        scan_rows-Ahead (after_row t s f (t.metadata s.calls f.owner)) rows
          (after_row-cursor s f earlier) (after_row-other s f earlier ∙ there) h)
  scan_rows-Ahead s (f ∷ rows) before there (inr (same, mine)) =
      scan_rows-step Kept s f rows (inl (before, there)) (inl (before, there)) (
        scan_rows-done (after_row t s f (t.metadata s.calls f.owner)) rows
          (after_row-own s f there same mine))

  found_own :
      (o : Option Row) (rest : List Found)
      → o ≡ some r
      → found_at id o rest ≡ record { id = id; owner = owner; seen = r } ∷ rest
  found_own o rest e = ground (arith, held, e)

  found_earlier :
      (c : ℕ) (o : Option Row) (k : ℕ) (rest : List Found)
      → c < id
      → ((j : ℕ) → Ahead (take j rest))
      → Ahead (take k (found_at c o rest))
  found_earlier c none k rest earlier h = h k
  found_earlier c (some q) k rest earlier h = listed q.orchestrator_run_id k
    where
      listed :
          (w : Option ℕ) (k : ℕ)
          → Ahead (
              take k (elim w [
                | none ↦ rest
                | some o ↦
                    if is_running q.status
                    then record { id = c; owner = o; seen = q } ∷ rest
                    else rest
              ]))
      listed none k = h k
      listed (some o) zero = tt
      listed (some o) (suc k) =
          if-cases (λ l. Ahead (take (suc k) l)) (is_running q.status) (λ e. inl (earlier, h k))
            (λ e. h (suc k))

  running_from-Ahead :
      (db : Db) (n c k : ℕ) → db id ≡ some r → c ≤ id → Ahead (take k (running_from db n c))
  unfolding running_from
  running_from-Ahead db zero c zero there le = tt
  running_from-Ahead db zero c (suc k) there le = tt
  running_from-Ahead db (suc n) c zero there le = tt
  running_from-Ahead db (suc n) c (suc k) there le = elim (Bool-cases (c == id)) [
    | inl same ↦
        subst (λ j. Ahead (take (suc k) (found_at j (db j) (running_from db n (suc j)))))
          (sym ((==_iff c id).0 same))
          (subst (λ l. Ahead (take (suc k) l))
            (sym (found_own (db id) (running_from db n (suc id)) there)) (inr (refl, refl)))
    | inr differ ↦
        let earlier : c < id = ground arith in
        found_earlier c (db c) (suc k) (running_from db n (suc c)) earlier
          (λ j. running_from-Ahead db n (suc c) j there earlier)
  ]

  found-any :
      (c : ℕ) (o : Option Row) (rest : List Found)
      → (f : Found) × (gs : List Found) × (rest ≡ f ∷ gs)
      → (f : Found) × (gs : List Found) × (found_at c o rest ≡ f ∷ gs)
  found-any c none rest h = h
  found-any c (some q) rest h = listed q.orchestrator_run_id
    where
      listed :
          (w : Option ℕ)
          → (f : Found) × (gs : List Found) × (elim w [
            | none ↦ rest
            | some o ↦
                if is_running q.status then record { id = c; owner = o; seen = q } ∷ rest else rest
          ]
              ≡ f ∷ gs)
      listed none = h
      listed (some o) =
          if-cases (λ l. (f : Found) × (gs : List Found) × (l ≡ f ∷ gs)) (is_running q.status)
            (λ e. (record { id = c; owner = o; seen = q }, rest, refl)) (λ e. h)

  running_from-any :
      (db : Db) (n c : ℕ)
      → db id ≡ some r
      → c ≤ id
      → id < c + n
      → (f : Found) × (gs : List Found) × (running_from db n c ≡ f ∷ gs)
  unfolding running_from
  running_from-any db zero c there le lt = absurd (omega (arith, le, lt))
  running_from-any db (suc n) c there le lt = elim (Bool-cases (c == id)) [
    | inl same ↦
        subst
          (λ j.
            (f : Found) × (gs : List Found) × (found_at j (db j) (running_from db n (suc j))
              ≡ f ∷ gs))
          (sym ((==_iff c id).0 same))
          (
            record { id = id; owner = owner; seen = r },
            running_from db n (suc id),
            found_own (db id) (running_from db n (suc id)) there,
          )
    | inr differ ↦
        let earlier : c < id = ground arith in
        found-any c (db c) (running_from db n (suc c))
          (running_from-any db n (suc c) there earlier (omega (arith, lt)))
  ]

  module _ (last_id size : ℕ) (exists : id ≤ last_id) where
    -- a page without rows means that the run has been taken back
    page-empty :
        (s : ScanState)
        → Watched s
        → page last_id (suc size) s.cursor s.db ≡ []
        → s.db id ≡ some taken_back
    unfolding page
    page-empty s (inr back) e = back
    page-empty s (inl (before, there)) e =
        let (f, gs, found) =
          running_from-any s.db (last_id - s.cursor) (suc s.cursor) there before
            (omega (arith, before, exists)) in
        cc (ap (take (suc size)) found)

    page-Kept :
        (s : ScanState) (n : ℕ)
        → Watched s
        → Kept (scan_rows t (record s { calls = n }) (page last_id (suc size) s.cursor s.db))
    unfolding page
    page-Kept s n (inr back) =
        scan_rows-done (record s { calls = n }) (page last_id (suc size) s.cursor s.db) back
    page-Kept s n (inl (before, there)) =
        scan_rows-Ahead (record s { calls = n }) (page last_id (suc size) s.cursor s.db) before
          there
          (running_from-Ahead s.db (last_id - s.cursor) (suc s.cursor) (suc size) there before)

    next_page-Kept :
        (k : ScanState → Progress)
        → ((s : ScanState) → Watched s → Kept (k s))
        → (p : Progress) → Kept p
        → Kept (next_page k p)
    next_page-Kept k h (going s) w = h s w
    next_page-Kept k h (paused s) w = w
    next_page-Kept k h (metadata_failed s) w = w
    next_page-Kept k h (swept s) w = w
    next_page-Kept k h stuck w = tt

    scan_page-Kept :
        (k : ScanState → Progress) (s : ScanState) (rows : List Found)
        → ((s : ScanState) → Watched s → Kept (k s))
        → (rows ≡ [] → s.db id ≡ some taken_back)
        → Kept (scan_rows t (record s { calls = suc s.calls }) rows)
        → Kept (scan_page k t s rows)
    scan_page-Kept k s [] h empty kept = empty refl
    scan_page-Kept k s (f ∷ rows) h empty kept =
        next_page-Kept k h (scan_rows t (record s { calls = suc s.calls }) (f ∷ rows)) kept

    scan_pages-Kept :
        (fuel : ℕ) (s : ScanState) → Watched s → Kept (scan_pages fuel last_id (suc size) t s)
    unfolding scan_pages
    scan_pages-Kept zero s w = tt
    scan_pages-Kept (suc fuel) s w = if-both Kept (not (t.has_budget s.calls)) w (
        scan_page-Kept (scan_pages fuel last_id (suc size) t) s
          (page last_id (suc size) s.cursor s.db) (λ s' w'. scan_pages-Kept fuel s' w')
          (page-empty s w) (page-Kept s (suc s.calls) w))

  stopped : (s : ScanState) → id ≤ s.cursor → Watched s → s.db id ≡ some taken_back
  stopped s passed (inl (before, there)) = absurd (omega (arith, passed, before))
  stopped s passed (inr back) = back

  Kept-ends :
      (p : Progress) (s : ScanState)
      → Kept p
      → (p ≡ swept s) ⊎ (((p ≡ paused s) ⊎ (p ≡ metadata_failed s)) × (id ≤ s.cursor))
      → s.db id ≡ some taken_back
  Kept-ends p s w (inl e) = subst Kept e w
  Kept-ends p s w (inr (inl e, passed)) = stopped s passed (subst Kept e w)
  Kept-ends p s w (inr (inr e, passed)) = stopped s passed (subst Kept e w)

-- A run that is running when the scan starts behind it, whose owner Dagster reports as finished
-- whenever it is asked, is failed in the database once the scan has swept all pages, or has stopped,
-- out of budget or for metadata of another run, at a position that is not before it. The pages hold at
-- least one row.
pub scan_recovers :
    (t : Tick) (id owner : ℕ) (r : Row) (last_id size position : ℕ) (db : Db) (s : ScanState)
    → db id ≡ some r
    → is_held (some r) owner ≡ true
    → ((n : ℕ) → t.metadata n owner ≡ finished)
    → position < id
    → id ≤ last_id
    → (scan last_id (suc size) t position db ≡ swept s)
      ⊎ (((scan last_id (suc size) t position db ≡ paused s)
            ⊎ (scan last_id (suc size) t position db ≡ metadata_failed s))
          × (id ≤ s.cursor))
    → s.db id ≡ some (record r { status = failed })
unfolding scan
scan_recovers t id owner r last_id size position db s there held over ahead exists stop =
    Kept-ends t id owner r held over (scan last_id (suc size) t position db) s
      (scan_pages-Kept t id owner r held over last_id size exists (suc (suc last_id))
        (record { db = db; cursor = position; recovered = 0; calls = 0 }) (inl (ahead, there)))
      stop
