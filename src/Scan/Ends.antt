-- ===== src/Scan/Ends.antt =====
-- `reconcile_collection_runs` ends, and sweeps all pages where nothing stops it.
use kor_travel_transport.Prelude.{
  ℕ, zero, suc, ◌+◌, ◌-◌, ◌≤◌, ◌<◌, ◌≡◌, ◌≢◌, refl, sym, subst, true, false, not, Option, none,
  some, List, [], ◌∷◌, arith, take, ◌⊎◌, inl, inr, if◌then◌else◌, if-cases, All, All-imp,
}
use kor_travel_transport.Recovery.{
  Row, Db, Metadata, missing, finished, alive, unavailable, is_running,
}
use kor_travel_transport.Scan.{
  Found, found_at, running_from, page, Tick, ScanState, after_row, Progress, going, paused,
  metadata_failed, swept, stuck, scan_rows, scan_page, scan_pages, next_page, scan, Ticked, ticked,
  reconcile_collection_runs,
}

abbrev Within : ℕ → ℕ → Found → Type 0
Within low high f = (low ≤ f.id) × (f.id < high)

found-Within :
    (c : ℕ) (o : Option Row) (rest : List Found) (n : ℕ)
    → All (Within (suc c) (suc c + n)) rest
    → All (Within c (c + suc n)) (found_at c o rest)
found-Within c none rest n h =
    All-imp (Within (suc c) (suc c + n)) (Within c (c + suc n))
      (λ f w. (omega (arith, w.0), omega (arith, w.1))) rest h
found-Within c (some q) rest n h = listed q.orchestrator_run_id
  where
    wider : All (Within c (c + suc n)) rest
    wider =
        All-imp (Within (suc c) (suc c + n)) (Within c (c + suc n))
          (λ f w. (omega (arith, w.0), omega (arith, w.1))) rest h

    listed :
        (w : Option ℕ)
        → All (Within c (c + suc n)) (elim w [
          | none ↦ rest
          | some o ↦
              if is_running q.status then record { id = c; owner = o; seen = q } ∷ rest else rest
        ])
    listed none = wider
    listed (some o) =
        if-cases (All (Within c (c + suc n))) (is_running q.status)
          (λ e. ((omega arith, omega arith), wider)) (λ e. wider)

running_from-Within : (db : Db) (n c : ℕ) → All (Within c (c + n)) (running_from db n c)
unfolding running_from
running_from-Within db zero c = tt
running_from-Within db (suc n) c =
    found-Within c (db c) (running_from db n (suc c)) n (running_from-Within db n (suc c))

take-All : (P : Found → Type 0) (k : ℕ) (xs : List Found) → All P xs → All P (take k xs)
take-All P zero xs h = tt
take-All P (suc k) [] h = tt
take-All P (suc k) (x ∷ xs) h = (h.0, take-All P k xs h.1)

-- `Stop` is what a stop for want of time or of metadata means.
module _ (t : Tick) (last_id size : ℕ) (Stop : Type 0)
    (no_time : (n : ℕ) → t.has_budget n ≡ false → Stop)
    (no_metadata : (n o : ℕ) → t.metadata n o ≡ unavailable → Stop) where
  -- The loop on the rows ends at a cursor behind `low`.
  abbrev Moves : ℕ → Progress → Type 0
  Moves low (going s) = (low < s.cursor) × (s.cursor ≤ last_id)
  Moves low (paused s) = Stop
  Moves low (metadata_failed s) = Stop
  Moves low (swept s) = Unit
  Moves low stuck = ⊥

  abbrev Ends : Progress → Type 0
  Ends (going s) = ⊥
  Ends (paused s) = Stop
  Ends (metadata_failed s) = Stop
  Ends (swept s) = Unit
  Ends stuck = ⊥

  scan_rows-step :
      (low : ℕ) (s : ScanState) (f : Found) (rows : List Found)
      → Moves low (scan_rows t (after_row t s f (t.metadata s.calls f.owner)) rows)
      → Moves low (scan_rows t s (f ∷ rows))
  unfolding scan_rows
  scan_rows-step low s f rows h =
      if-cases (Moves low) (not (t.has_budget s.calls)) (λ e. no_time s.calls (ground arith))
        (λ e. pick (t.metadata s.calls f.owner) refl)
    where
      pick :
          (m : Metadata)
          → t.metadata s.calls f.owner ≡ m
          → Moves low (elim m [
            | unavailable ↦ metadata_failed s
            | missing ↦ scan_rows t (after_row t s f (t.metadata s.calls f.owner)) rows
            | finished ↦ scan_rows t (after_row t s f (t.metadata s.calls f.owner)) rows
            | alive ↦ scan_rows t (after_row t s f (t.metadata s.calls f.owner)) rows
          ])
      pick unavailable e = no_metadata s.calls f.owner e
      pick missing e = h
      pick finished e = h
      pick alive e = h

  scan_rows-Moves :
      (low : ℕ) (s : ScanState) (rows : List Found)
      → low < s.cursor
      → s.cursor ≤ last_id
      → All (Within (suc low) (suc last_id)) rows
      → Moves low (scan_rows t s rows)
  unfolding scan_rows after_row
  scan_rows-Moves low s [] above below h = (above, below)
  scan_rows-Moves low s (f ∷ rows) above below h = scan_rows-step low s f rows (
      scan_rows-Moves low (after_row t s f (t.metadata s.calls f.owner)) rows h.0.0
        (omega (arith, h.0.1)) h.1)

  page-Within :
      (s : ScanState)
      → s.cursor ≤ last_id
      → All (Within (suc s.cursor) (suc last_id)) (page last_id size s.cursor s.db)
  unfolding page
  page-Within s below =
      take-All (Within (suc s.cursor) (suc last_id)) size
        (running_from s.db (last_id - s.cursor) (suc s.cursor))
        (All-imp (Within (suc s.cursor) (suc s.cursor + (last_id - s.cursor)))
          (Within (suc s.cursor) (suc last_id)) (λ f w. (w.0, omega (arith, w.1, below)))
          (running_from s.db (last_id - s.cursor) (suc s.cursor))
          (running_from-Within s.db (last_id - s.cursor) (suc s.cursor)))

  page-past : (s : ScanState) → last_id < s.cursor → page last_id size s.cursor s.db ≡ []
  unfolding page running_from
  page-past s past =
      let none_left : last_id - s.cursor ≡ 0 = omega (arith, past) in
      subst (λ n. take size (running_from s.db n (suc s.cursor)) ≡ []) (sym none_left)
        (take-nil size)
    where
      take-nil : (k : ℕ) → take {A = Found} k [] ≡ []
      take-nil zero = refl
      take-nil (suc k) = refl

  next_page-Ends :
      (k : ScanState → Progress) (low : ℕ) (p : Progress)
      → ((s : ScanState) → low < s.cursor → s.cursor ≤ last_id → Ends (k s))
      → Moves low p
      → Ends (next_page k p)
  next_page-Ends k low (going s) h m = h s m.0 m.1
  next_page-Ends k low (paused s) h m = m
  next_page-Ends k low (metadata_failed s) h m = m
  next_page-Ends k low (swept s) h m = tt
  next_page-Ends k low stuck h m = m

  scan_page-Ends :
      (k : ScanState → Progress) (s : ScanState) (rows : List Found)
      → ((s' : ScanState) → s.cursor < s'.cursor → s'.cursor ≤ last_id → Ends (k s'))
      → All (Within (suc s.cursor) (suc last_id)) rows
      → Ends (scan_page k t s rows)
  unfolding after_row
  scan_page-Ends k s [] h w = tt
  scan_page-Ends k s (f ∷ rows) h w =
      next_page-Ends k s.cursor (scan_rows t (record s { calls = suc s.calls }) (f ∷ rows)) h (
        scan_rows-step s.cursor (record s { calls = suc s.calls }) f rows
          (scan_rows-Moves s.cursor
            (after_row t (record s { calls = suc s.calls }) f (t.metadata (suc s.calls) f.owner))
            rows w.0.0 (omega (arith, w.0.1)) w.1))

  scan_pages-Ends :
      (fuel : ℕ) (s : ScanState)
      → last_id - s.cursor < fuel
      → Ends (scan_pages fuel last_id size t s)
  unfolding scan_pages
  scan_pages-Ends zero s enough = absurd (omega (arith, enough))
  scan_pages-Ends (suc fuel) s enough =
      if-cases Ends (not (t.has_budget s.calls)) (λ e. no_time s.calls (ground arith))
        (λ e. elim (le_or_lt s.cursor last_id) [
          | inl below ↦
              scan_page-Ends (scan_pages fuel last_id size t) s (page last_id size s.cursor s.db)
                (λ s' above below'. scan_pages-Ends fuel s' (omega (arith, enough, above, below')))
                (page-Within s below)
          | inr past ↦
              subst (λ rows. Ends (scan_page (scan_pages fuel last_id size t) t s rows))
                (sym (page-past s past)) tt
        ])
    where
      le_or_lt : (a b : ℕ) → (a ≤ b) ⊎ (b < a)
      le_or_lt a b = ground arith

-- Every tick ends: it leaves a position, whatever the budget and the metadata.
pub reconcile_collection_runs_ends :
    (last_id size position : ℕ) (t : Tick) (db : Db)
    → (k : Ticked) × (reconcile_collection_runs last_id size t position db ≡ some k)
unfolding reconcile_collection_runs scan
reconcile_collection_runs_ends last_id size position t db = left (scan last_id size t position db) (
    scan_pages-Ends t last_id size Unit (λ n e. tt) (λ n o e. tt) (suc (suc last_id))
      (record { db = db; cursor = position; recovered = 0; calls = 0 }) (omega arith))
  where
    left :
        (p : Progress)
        → Ends t last_id size Unit (λ n e. tt) (λ n o e. tt) p
        → (k : Ticked) × (ticked p ≡ some k)
    left (going s) h = absurd h
    left (paused s) h = (_, refl)
    left (metadata_failed s) h = (_, refl)
    left (swept s) h = (_, refl)
    left stuck h = absurd h

-- Where the budget is never used up and Dagster always answers, the tick sweeps all pages.
pub scan_sweeps :
    (last_id size position : ℕ) (t : Tick) (db : Db)
    → ((n : ℕ) → t.has_budget n ≡ true)
    → ((n o : ℕ) → t.metadata n o ≢ unavailable)
    → (s : ScanState) × (scan last_id size t position db ≡ swept s)
unfolding scan
scan_sweeps last_id size position t db time answers = left (scan last_id size t position db) (
    scan_pages-Ends t last_id size ⊥ no_time answers (suc (suc last_id))
      (record { db = db; cursor = position; recovered = 0; calls = 0 }) (omega arith))
  where
    no_time : (n : ℕ) → t.has_budget n ≡ false → ⊥
    no_time n e = cc (time n)

    left :
        (p : Progress) → Ends t last_id size ⊥ no_time answers p → (s : ScanState) × (p ≡ swept s)
    left (going s) h = absurd h
    left (paused s) h = absurd h
    left (metadata_failed s) h = absurd h
    left (swept s) h = (s, refl)
    left stuck h = absurd h
