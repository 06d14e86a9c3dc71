-- ===== src/Stations/Plan/Writes.antt =====
-- What a flush leaves, where every write is one of a table that holds each place once.
use kor_travel_transport.Prelude.{
  ℕ, ◌≤◌, ◌≡◌, refl, ap, ◌∙◌, Bool, true, false, Option, none, some, List, [], ◌∷◌, map, any, count,
  All, arith, ◌&&◌, if◌then◌else◌, if-true, Bool-cases, inl, inr, ◌⊎◌,
}
use kor_travel_transport.Stations.{KricStation, CodeKey, code_beq, provider_key}
use kor_travel_transport.Stations.Plan.{
  Updates, is_station, set_link, has_station, shares, is_unique, flush,
}

-- a row with the place that `g` says
abbrev pub with_id : (KricStation → Option ℕ) → KricStation → KricStation
with_id g row = record row { rail_station_id = g row }

abbrev pub covers : CodeKey → KricStation → Bool
covers key row = row.active && code_beq (provider_key row) key

abbrev pub step_id : CodeKey → Option ℕ → (KricStation → Option ℕ) → KricStation → Option ℕ
step_id key id g row = if covers key row then id else g row

abbrev pub ids_after : Updates → (KricStation → Option ℕ) → KricStation → Option ℕ
ids_after [] g = g
ids_after ((key, id) ∷ writes) g = ids_after writes (step_id key id g)

set_link-with_id :
    (key : CodeKey) (id : Option ℕ) (g : KricStation → Option ℕ) (rows : List KricStation)
    → map (set_link key id) (map (with_id g) rows) ≡ map (with_id (step_id key id g)) rows
unfolding set_link provider_key
set_link-with_id key id g [] = refl
set_link-with_id key id g (row ∷ rows) =
    ap (λ rest. with_id (step_id key id g) row ∷ rest) (set_link-with_id key id g rows)

-- each place stands at most once among the places that `h` gives
abbrev pub IsOnceBy : (KricStation → Option ℕ) → List KricStation → Type 0
IsOnceBy h rows = (n : ℕ) → count (λ r. is_station (h r) n) rows ≤ 1

shares-once :
    (o : Option ℕ) (rows : List KricStation)
    → ((n : ℕ) → count (has_station n) rows ≤ (if is_station o n then 0 else 1))
    → shares o rows ≡ false
shares-once none rows h = refl
shares-once (some n) rows h = no_any rows (ground (arith, h n))
  where
    no_any : (rs : List KricStation) → count (has_station n) rs ≤ 0 → any (has_station n) rs ≡ false
    no_any [] h = refl
    no_any (r ∷ rs) h = elim (Bool-cases (has_station n r)) [
      | inl this ↦ absurd (ground (arith, this, h))
      | inr other ↦ ground (arith, other, no_any rs (ground (arith, other, h)))
    ]

is_unique-once :
    (rows : List KricStation) → ((n : ℕ) → count (has_station n) rows ≤ 1) → is_unique rows ≡ true
is_unique-once [] h = refl
is_unique-once (r ∷ rows) h =
    let alone = shares-once r.rail_station_id rows (λ n. ground (arith, h n)) in
    let rest = is_unique-once rows (λ n. ground (arith, h n)) in ground (arith, alone, rest)

module _ (h : KricStation → Option ℕ) where
  -- each row has no place, or the one of `h`
  abbrev pub IsPart : (KricStation → Option ℕ) → List KricStation → Type 0
  IsPart g rows = All (λ r. (g r ≡ none) ⊎ (g r ≡ h r)) rows

  abbrev pub IsWrite : List KricStation → CodeKey × Option ℕ → Type 0
  IsWrite rows w = All (λ r. covers w.0 r ≡ true → (w.1 ≡ none) ⊎ (w.1 ≡ h r)) rows

  step_id-IsPart :
      (key : CodeKey) (id : Option ℕ) (g : KricStation → Option ℕ) (rows : List KricStation)
      → IsWrite rows (key, id)
      → IsPart g rows
      → IsPart (step_id key id g) rows
  step_id-IsPart key id g [] w part = tt
  step_id-IsPart key id g (r ∷ rows) w part = (
    elim (Bool-cases (covers key r)) [
      | inl this ↦ rw this (w.0 this)
      | inr other ↦ rw other part.0
    ],
    step_id-IsPart key id g rows w.1 part.1,
  )

  IsPart-count :
      (g : KricStation → Option ℕ) (rows : List KricStation) (n : ℕ)
      → IsPart g rows
      → count (has_station n) (map (with_id g) rows) ≤ count (λ r. is_station (h r) n) rows
  IsPart-count g [] n part = omega arith
  IsPart-count g (r ∷ rows) n part = elim part.0 [
    | inl empty ↦ rw empty (ground (arith, IsPart-count g rows n part.1))
    | inr same ↦ rw same (ground (arith, IsPart-count g rows n part.1))
  ]

  pub flush-ids :
      (writes : Updates) (g : KricStation → Option ℕ) (rows : List KricStation)
      → IsOnceBy h rows
      → All (IsWrite rows) writes
      → IsPart g rows
      → flush writes (map (with_id g) rows) ≡ some (map (with_id (ids_after writes g)) rows)
  unfolding flush
  flush-ids [] g rows once ws part = refl
  flush-ids ((key, id) ∷ writes) g rows once ws part =
      let g' = step_id key id g in
      let part' = step_id-IsPart key id g rows ws.0 part in
      let fine =
        is_unique-once (map (with_id g') rows)
          (λ n. ground (arith, once n, IsPart-count g' rows n part')) in
      ap (λ written. (let rest = flush writes written in if is_unique written then rest else none))
        (set_link-with_id key id g rows)
      ∙ if-true _ _ fine
      ∙ flush-ids writes g' rows once ws.1 part'

abbrev pub written : Updates → KricStation → Bool
written writes r = r.active && any (λ w. code_beq (provider_key r) w.0) writes

-- where all writes to a row write the same
pub ids_after-same :
    (writes : Updates) (g : KricStation → Option ℕ) (r : KricStation) (v : Option ℕ)
    → All (λ w. code_beq (provider_key r) w.0 ≡ true → w.1 ≡ v) writes
    → ids_after writes g r ≡ (if written writes r then v else g r)
ids_after-same [] g r v h = ground arith
ids_after-same ((key, id) ∷ writes) g r v h =
    ids_after-same writes (step_id key id g) r v h.1
    ∙ elim (Bool-cases (code_beq (provider_key r) key)) [
      | inl this ↦ rw (this, h.0 this) (ground arith)
      | inr other ↦ rw other (ground arith)
    ]
