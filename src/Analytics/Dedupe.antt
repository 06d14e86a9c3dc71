-- ===== src/Analytics/Dedupe.antt =====
-- `deduplicate_snapshots` and `deduplicate_snapshot_rows`: the best row for each lot and time.
use kor_travel_transport.Prelude.{
  if-both, ◌≡◌, refl, sym, ap, subst, ◌∙◌, Bool, true, false, Option, none, some, List, [], ◌∷◌,
  arith, All, All-imp, All-both, All-unit, count, Bool-cases, some-inj, inl, inr, if◌then◌else◌,
  if-true, if-false, if-cases,
}
use kor_travel_transport.Prelude.Dict.{
  Dict, get, get-put, values, NodupKeys, put-NodupKeys, put-All, get-entries, values-All,
  count-values, presence,
}
use kor_travel_transport.Prelude.Sort.{sorted, IsSorted, sorted-IsSorted, sorted-All, count-sorted}
use kor_travel_transport.Analytics.{
  Snapshot, Key, key_of, key_beq, key_beq_iff, key_eq, is_preferred, comes_before, store_best,
  select_step, select_best, deduplicate_by,
}

-- `is_preferred` is a strict weak order.
preferred_trans :
    (a b c : Snapshot)
    → is_preferred a b ≡ true
    → is_preferred a c ≡ false
    → is_preferred b c ≡ false
unfolding is_preferred
preferred_trans a b c h k = ground arith

not_preferred_trans :
    (a b c : Snapshot)
    → is_preferred a b ≡ false
    → is_preferred b c ≡ false
    → is_preferred a c ≡ false
unfolding is_preferred
not_preferred_trans a b c h k = ground arith

not_preferred_self : (a : Snapshot) → is_preferred a a ≡ false
unfolding is_preferred
not_preferred_self a = ground arith

before_asym : (a b : Snapshot) → comes_before a b ≡ true → comes_before b a ≡ false
unfolding comes_before
before_asym a b h = ground arith

module _ {A : Type 0} (snapshot : A → Snapshot) where
  abbrev challenge : A → Option A → Option A
  challenge x none = some x
  challenge x (some c) = if is_preferred (snapshot x) (snapshot c) then some x else some c

  -- the winner for one key
  abbrev best_of : Key → Option A → List A → Option A
  best_of k o [] = o
  best_of k o (x ∷ xs) = best_of k (if key_beq (key_of (snapshot x)) k then challenge x o else o) xs

  -- the dict after one row, at a key; `o` is what it held for the key of the row
  get-store_best :
      (k : Key) (d : Dict Key A) (x : A) (o : Option A)
      → get d (key_of (snapshot x)) ≡ o
      → get (store_best snapshot d x o) k
        ≡ (if key_beq (key_of (snapshot x)) k then challenge x o else get d k)
  unfolding store_best
  get-store_best k d x none e = get-put d (key_of (snapshot x)) k x
  get-store_best k d x (some c) e = elim (Bool-cases (is_preferred (snapshot x) (snapshot c))) [
    | inl wins ↦ rw wins (get-put d (key_of (snapshot x)) k x)
    | inr loses ↦ rw loses (
        if-cases (λ o. get d k ≡ o) (key_beq (key_of (snapshot x)) k) {x = some c} {y = get d k}
          (λ same. ap (get d) (sym ((key_beq_iff (key_of (snapshot x)) k).0 same)) ∙ e)
          (λ other. refl))
  ]

  get-select_step :
      (k : Key) (d : Dict Key A) (x : A)
      → get (select_step snapshot d x) k
        ≡ (if key_beq (key_of (snapshot x)) k then challenge x (get d k) else get d k)
  unfolding select_step
  get-select_step k d x =
      get-store_best k d x (get d (key_of (snapshot x))) refl
      ∙ if-cases
          (λ o. o ≡ (if key_beq (key_of (snapshot x)) k then challenge x (get d k) else get d k))
          (key_beq (key_of (snapshot x)) k) {x = challenge x (get d (key_of (snapshot x)))}
          {y = get d k}
          (λ same.
            ap (λ j. challenge x (get d j)) ((key_beq_iff (key_of (snapshot x)) k).0 same)
            ∙ sym (if-true _ _ same))
          (λ other. sym (if-false _ _ other))

  get-select_best :
      (k : Key) (d : Dict Key A) (rows : List A)
      → get (select_best snapshot d rows) k ≡ best_of k (get d k) rows
  unfolding select_best
  get-select_best k d [] = refl
  get-select_best k d (x ∷ xs) =
      get-select_best k (select_step snapshot d x) xs
      ∙ ap (λ o. best_of k o xs) (get-select_step k d x)

  -- a row of this key does not beat `r`
  abbrev Loses : Key → A → A → Type 0
  Loses k r s = key_of (snapshot s) ≡ k → is_preferred (snapshot s) (snapshot r) ≡ false

  best_of_wins :
      (k : Key) (c : A) (rows : List A) (r : A)
      → best_of k (some c) rows ≡ some r
      → (is_preferred (snapshot c) (snapshot r) ≡ false) × All (Loses k r) rows
  best_of_wins k c [] r e = (
    subst (λ x. is_preferred (snapshot c) (snapshot x) ≡ false) (some-inj e)
        (not_preferred_self (snapshot c)),
    tt,
  )
  best_of_wins k c (x ∷ xs) r e = elim (Bool-cases (key_beq (key_of (snapshot x)) k)) [
    | inl same ↦ elim (Bool-cases (is_preferred (snapshot x) (snapshot c))) [
      | inl wins ↦
          let (head, rest) = best_of_wins k x xs r (rw (same, wins) at e) in
          (preferred_trans (snapshot x) (snapshot c) (snapshot r) wins head, ((λ h. head), rest))
      | inr loses ↦
          let (head, rest) = best_of_wins k c xs r (rw (same, loses) at e) in
          (
            head,
            ((λ h. not_preferred_trans (snapshot x) (snapshot c) (snapshot r) loses head), rest),
          )
    ]
    | inr other ↦
        let (head, rest) = best_of_wins k c xs r (rw other at e) in
        (head, ((λ h. cc (sym other ∙ (key_beq_iff (key_of (snapshot x)) k).1 h)), rest))
  ]

  -- Every entry of the dict stands under the key of its row and has a property that the rows have.
  abbrev Held : (A → Type 0) → Key × A → Type 0
  Held P p = (key_of (snapshot p.1) ≡ p.0) × P p.1

  store_best-Held :
      (P : A → Type 0) (d : Dict Key A) (x : A) (o : Option A)
      → P x
      → All (Held P) d
      → All (Held P) (store_best snapshot d x o)
  unfolding store_best
  store_best-Held P d x none px h =
      put-All (Held P) d (key_of (snapshot x)) x
        (λ j same. (sym ((key_beq_iff j (key_of (snapshot x))).0 same), px)) (refl, px) h
  store_best-Held P d x (some c) px h =
      if-both (All (Held P)) (is_preferred (snapshot x) (snapshot c))
        (put-All (Held P) d (key_of (snapshot x)) x
          (λ j same. (sym ((key_beq_iff j (key_of (snapshot x))).0 same), px)) (refl, px) h)
        h

  select_best-Held :
      (P : A → Type 0) (d : Dict Key A) (rows : List A)
      → All P rows
      → All (Held P) d
      → All (Held P) (select_best snapshot d rows)
  unfolding select_best select_step
  select_best-Held P d [] hr h = h
  select_best-Held P d (x ∷ xs) hr h =
      select_best-Held P (select_step snapshot d x) xs hr.1
        (store_best-Held P d x (get d (key_of (snapshot x))) hr.0 h)

  store_best-Nodup :
      (d : Dict Key A) (x : A) (o : Option A) → NodupKeys d → NodupKeys (store_best snapshot d x o)
  unfolding store_best
  store_best-Nodup d x none h = put-NodupKeys d (key_of (snapshot x)) x h
  store_best-Nodup d x (some c) h =
      if-both NodupKeys (is_preferred (snapshot x) (snapshot c))
        (put-NodupKeys d (key_of (snapshot x)) x h) h

  select_best-Nodup :
      (d : Dict Key A) (rows : List A) → NodupKeys d → NodupKeys (select_best snapshot d rows)
  unfolding select_best select_step
  select_best-Nodup d [] h = h
  select_best-Nodup d (x ∷ xs) h =
      select_best-Nodup (select_step snapshot d x) xs
        (store_best-Nodup d x (get d (key_of (snapshot x))) h)

  -- the winner of a list that starts with nothing
  best_of-Loses :
      (k : Key) (rows : List A) (r : A) → best_of k none rows ≡ some r → All (Loses k r) rows
  best_of-Loses k [] r e = tt
  best_of-Loses k (x ∷ xs) r e = elim (Bool-cases (key_beq (key_of (snapshot x)) k)) [
    | inl same ↦ let (head, rest) = best_of_wins k x xs r (rw same at e) in ((λ h. head), rest)
    | inr other ↦ (
      (λ h. cc (sym other ∙ (key_beq_iff (key_of (snapshot x)) k).1 h)),
      best_of-Loses k xs r (rw other at e),
    )
  ]

  -- Once there is a winner there is one at the end.
  best_of-some : (k : Key) (c : A) (rows : List A) → (r : A) × (best_of k (some c) rows ≡ some r)
  best_of-some k c [] = (c, refl)
  best_of-some k c (x ∷ xs) = elim (Bool-cases (key_beq (key_of (snapshot x)) k)) [
    | inl same ↦ elim (Bool-cases (is_preferred (snapshot x) (snapshot c))) [
      | inl wins ↦ rw (same, wins) (best_of-some k x xs)
      | inr loses ↦ rw (same, loses) (best_of-some k c xs)
    ]
    | inr other ↦ rw other (best_of-some k c xs)
  ]

  -- every key of a row has a winner
  abbrev HasWinner : List A → A → Type 0
  HasWinner rows s = (o : Option A) → (r : A) × (best_of (key_of (snapshot s)) o rows ≡ some r)

  challenge-some : (x : A) (o : Option A) → (c : A) × (challenge x o ≡ some c)
  challenge-some x none = (x, refl)
  challenge-some x (some c) =
      if-both (λ r. (c : A) × (r ≡ some c)) (is_preferred (snapshot x) (snapshot c)) (x, refl)
        (c, refl)

  best_of-own : (x : A) (xs : List A) → HasWinner (x ∷ xs) x
  best_of-own x xs o =
      let (c, won) = challenge-some x o in
      rw ((key_beq_iff (key_of (snapshot x)) (key_of (snapshot x))).1 refl, won)
        (best_of-some (key_of (snapshot x)) c xs)

  best_of-all : (rows : List A) → All (HasWinner rows) rows
  best_of-all [] = tt
  best_of-all (x ∷ xs) = (
    best_of-own x xs,
    All-imp (HasWinner xs) (HasWinner (x ∷ xs))
        (λ s has o.
          has (if key_beq (key_of (snapshot x)) (key_of (snapshot s)) then challenge x o else o))
        xs (best_of-all xs),
  )

  -- rows without duplicates: one for each key, in the sorted order
  pub record IsDeduplicated (rows result : List A) : Type 1 where
    pub drawn : (P : A → Type 0) → All P rows → All P result
    pub best : All (λ r. All (Loses (key_of (snapshot r)) r) rows) result
    pub unique :
        All (λ s. count (λ r. key_beq (key_of (snapshot r)) (key_of (snapshot s))) result ≡ 1) rows
    pub ordered : IsSorted (λ a b. comes_before (snapshot a) (snapshot b)) result

  abbrev keyed : A → Key
  keyed r = key_of (snapshot r)

  abbrev before : A → A → Bool
  before a b = comes_before (snapshot a) (snapshot b)

  selected-keyed :
      (rows : List A) → All (λ (p : Key × A). keyed p.1 ≡ p.0) (select_best snapshot [] rows)
  selected-keyed rows =
      All-imp (Held (λ r. Unit)) (λ (p : Key × A). keyed p.1 ≡ p.0) (λ p held. held.0)
        (select_best snapshot [] rows) (select_best-Held (λ r. Unit) [] rows (All-unit rows) tt)

  selected-best :
      (rows : List A)
      → All (λ r. All (Loses (keyed r) r) rows) (values (select_best snapshot [] rows))
  unfolding get
  selected-best rows =
      values-All (λ r. All (Loses (keyed r) r) rows) (select_best snapshot [] rows)
        (All-both (λ (p : Key × A). keyed p.1 ≡ p.0)
          (λ (p : Key × A). get (select_best snapshot [] rows) p.0 ≡ some p.1)
          (λ (p : Key × A). All (Loses (keyed p.1) p.1) rows)
          (λ p own found. best_of-Loses (keyed p.1) rows p.1 (
            sym (get-select_best (keyed p.1) [] rows)
            ∙ ap (get (select_best snapshot [] rows)) own
            ∙ found))
          (select_best snapshot [] rows) (selected-keyed rows)
          (get-entries (select_best snapshot [] rows) (select_best-Nodup [] rows tt)))

  selected_unique :
      (rows : List A) (s : A)
      → HasWinner rows s
      → count (λ r. key_beq (keyed r) (keyed s)) (values (select_best snapshot [] rows)) ≡ 1
  unfolding get
  selected_unique rows s has =
      let (r, won) = has none in
      count-values keyed (select_best snapshot [] rows) (keyed s) (selected-keyed rows)
        (select_best-Nodup [] rows tt)
      ∙ ap presence (get-select_best (keyed s) [] rows ∙ won)

  -- The rows that `deduplicate_by` gives are rows of the input. None of them has a row of the same key
  -- that is preferred to it, each key of the input stands once among them, and they are in order.
  pub deduplicate_by_best : (rows : List A) → IsDeduplicated rows (deduplicate_by snapshot rows)
  unfolding deduplicate_by
  deduplicate_by_best rows =
      let chosen = values (select_best snapshot [] rows) in
      record {
        drawn = λ P h. sorted-All before P chosen (
            values-All P (select_best snapshot [] rows) (
              All-imp (Held P) (λ (p : Key × A). P p.1) (λ p held. held.1)
                (select_best snapshot [] rows) (select_best-Held P [] rows h tt)));
        best = sorted-All before (λ r. All (Loses (keyed r) r) rows) chosen (selected-best rows);
        unique =
            All-imp (HasWinner rows)
              (λ s. count (λ r. key_beq (keyed r) (keyed s)) (sorted before chosen) ≡ 1)
              (λ s has.
                count-sorted before (λ r. key_beq (keyed r) (keyed s)) chosen
                ∙ selected_unique rows s has)
              rows (best_of-all rows);
        ordered = sorted-IsSorted before (λ x y. before_asym (snapshot x) (snapshot y)) chosen;
      }
