-- ===== src/Series/Reference.antt =====
-- `build_time_series`: the walk over the snapshots of a lot against looking each bucket up by itself.
use kor_travel_transport.Prelude.{
  ℕ, ◌≤◌, ◌<◌, ◌≡◌, refl, ap, ap₂, ◌∙◌, Bool, true, Option, none, some, List, [], ◌∷◌, arith, map,
  ltb, leb, if◌then◌else◌, lt_of_leb-false, if-false, Bool-cases, inl, inr, keep,
}
use kor_travel_transport.Prelude.Sort.{IsSorted}
use kor_travel_transport.Analytics.{Snapshot}
use kor_travel_transport.Series.{SeriesItem, observed, advance, add_current, fill_lot}

-- the times of the buckets do not go back
abbrev pub Rising : ℕ → List SeriesItem → Type 0
Rising from [] = Unit
Rising from (item ∷ items) = (from ≤ item.bucket_at) × Rising item.bucket_at items

abbrev pub earlier : Snapshot → Snapshot → Bool
earlier a b = ltb (observed a) (observed b)

-- the last item of a list, or the given one
abbrev pub last_or : Option Snapshot → List Snapshot → Option Snapshot
last_or current [] = current
last_or current (s ∷ ss) = last_or (some s) ss

-- the last reading of the lot that is not after a time
abbrev pub last_until : ℕ → List Snapshot → Option Snapshot
last_until at ss = last_or none (keep (λ s. leb (observed s) at) ss)

-- a bucket by itself
abbrev pub fill_alone : ℕ → ℕ → List Snapshot → SeriesItem → SeriesItem
fill_alone latest step ss item =
    if ltb latest item.bucket_at then item else add_current step item (last_until item.bucket_at ss)

-- Going on from an earlier time comes to the same place.
advance-advance :
    (b c : ℕ) (current : Option Snapshot) (ss : List Snapshot)
    → b ≤ c
    → advance c (advance b current ss).0 (advance b current ss).1 ≡ advance c current ss
unfolding advance
advance-advance b c current [] le = refl
advance-advance b c current (s ∷ ss) le = elim (Bool-cases (leb (observed s) b)) [
  | inl past ↦
      let past_too : leb (observed s) c ≡ true = ground (arith, past, le) in
      rw (past, past_too) (advance-advance b c (some s) ss le)
  | inr future ↦ rw future refl
]

-- the walk from here comes to the same place as one from the start
abbrev Synced : List Snapshot → ℕ → Option Snapshot → List Snapshot → Type 0
Synced ss b current rest = (c : ℕ) → b ≤ c → advance c current rest ≡ advance c none ss

Synced-advance :
    (ss : List Snapshot) (b c : ℕ) (current : Option Snapshot) (rest : List Snapshot)
    → Synced ss b current rest
    → b ≤ c
    → Synced ss c (advance c current rest).0 (advance c current rest).1
Synced-advance ss b c current rest h le d far =
    advance-advance c d current rest far ∙ h d (omega (arith, le, far))

abbrev fill_walked : ℕ → ℕ → List Snapshot → SeriesItem → SeriesItem
fill_walked latest step ss item =
    if ltb latest item.bucket_at
    then item
    else add_current step item (advance item.bucket_at none ss).0

Rising-from : (b c : ℕ) (items : List SeriesItem) → b ≤ c → Rising c items → Rising b items
Rising-from b c [] le h = tt
Rising-from b c (item ∷ items) le h = (omega (arith, le, h.0), h.1)

fill_lot-walked :
    (latest step : ℕ) (ss : List Snapshot) (b : ℕ) (current : Option Snapshot)
    (rest : List Snapshot) (items : List SeriesItem)
    → Synced ss b current rest
    → Rising b items
    → fill_lot latest step current rest items ≡ map (fill_walked latest step ss) items
unfolding fill_lot
fill_lot-walked latest step ss b current rest [] h up = refl
fill_lot-walked latest step ss b current rest (item ∷ items) h up =
    elim (Bool-cases (ltb latest item.bucket_at)) [
      | inl late ↦ rw late (
          ap (λ l. item ∷ l)
            (fill_lot-walked latest step ss b current rest items h
              (Rising-from b item.bucket_at items up.0 up.1)))
      | inr early ↦ rw early (
          ap₂ (λ (x : SeriesItem) l. x ∷ l)
            (ap (λ (m : Option Snapshot × List Snapshot). add_current step item m.0)
              (h item.bucket_at up.0))
            (fill_lot-walked latest step ss item.bucket_at (advance item.bucket_at current rest).0
              (advance item.bucket_at current rest).1 items
              (Synced-advance ss b item.bucket_at current rest h up.0) up.1))
    ]

none_later :
    (at : ℕ) (s : Snapshot) (ss : List Snapshot)
    → at < observed s
    → IsSorted earlier (s ∷ ss)
    → keep (λ x. leb (observed x) at) (s ∷ ss) ≡ []
none_later at s [] late h = ground (arith, late)
none_later at s (x ∷ xs) late h =
    let next : at < observed x = ground (arith, late, h.0) in
    let rest = none_later at x xs next h.1 in
    if-false {b = leb (observed s) at} _ _ (ground (arith, late)) ∙ rest

IsSorted-tail :
    (s : Snapshot) (ss : List Snapshot) → IsSorted earlier (s ∷ ss) → IsSorted earlier ss
IsSorted-tail s [] h = tt
IsSorted-tail s (x ∷ xs) h = h.1

advance-last :
    (at : ℕ) (current : Option Snapshot) (ss : List Snapshot)
    → IsSorted earlier ss
    → (advance at current ss).0 ≡ last_or current (keep (λ x. leb (observed x) at) ss)
unfolding advance
advance-last at current [] h = refl
advance-last at current (s ∷ ss) h = elim (Bool-cases (leb (observed s) at)) [
  | inl past ↦ rw past (advance-last at (some s) ss (IsSorted-tail s ss h))
  | inr future ↦ rw (none_later at s ss (lt_of_leb-false _ _ future) h) (
      ap (λ (m : Option Snapshot × List Snapshot). m.0)
        (if-false {b = leb (observed s) at} (advance at (some s) ss) (current, s ∷ ss) future))
]

fill_walked-alone :
    (latest step : ℕ) (ss : List Snapshot)
    → IsSorted earlier ss
    → (items : List SeriesItem)
    → map (fill_walked latest step ss) items ≡ map (fill_alone latest step ss) items
fill_walked-alone latest step ss h [] = refl
fill_walked-alone latest step ss h (item ∷ items) =
    ap₂ (λ (x : SeriesItem) l. x ∷ l)
      (ap (λ m. if ltb latest item.bucket_at then item else add_current step item m)
        (advance-last item.bucket_at none ss h))
      (fill_walked-alone latest step ss h items)

-- For buckets that do not go back in time and readings of a lot in time order, the single walk over
-- the readings fills each bucket as by itself: not at all if it is behind the latest observation, and
-- else from the last reading of the lot that is not after it.
pub fill_lot-alone :
    (latest step : ℕ) (ss : List Snapshot) (items : List SeriesItem)
    → IsSorted earlier ss
    → Rising 0 items
    → fill_lot latest step none ss items ≡ map (fill_alone latest step ss) items
fill_lot-alone latest step ss items h up =
    fill_lot-walked latest step ss 0 none ss items (λ c le. refl) up
    ∙ fill_walked-alone latest step ss h items
