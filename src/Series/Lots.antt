-- ===== src/Series/Lots.antt =====
-- Rows grouped by a key, as in `snapshots_by_lot`.
use kor_travel_transport.Prelude.{
  ◌≡◌, refl, sym, ap, ◌∙◌, Bool, true, Option, none, some, List, [], ◌∷◌, ◌++◌, append_assoc,
  append-nil, arith, map, keep, if◌then◌else◌, Bool-cases, inl, inr, any, count, All, All-imp,
  if-cases,
}
use kor_travel_transport.Prelude.Dict.{
  Eq, Dict, get, get-put, get-entries, count-entries, presence, NodupKeys, put-NodupKeys,
}
use kor_travel_transport.Series.{or_empty, append_to, grouped}

module _ {K : Type 0} {A : Type 0} {B : Type 0} ⦃e : Eq K⦄ (key : A → K) (value : A → B) where
  -- the values of one key, in the order of the rows
  abbrev pub values_of : K → List A → List B
  values_of k xs = map value (keep (λ x. e.beq (key x) k) xs)

  append_to-own :
      (groups : Dict K (List B)) (x : A) (k : K)
      → or_empty (get (append_to groups (key x) (value x)) k)
        ≡ or_empty (get groups k) ++ (if e.beq (key x) k then value x ∷ [] else [])
  append_to-own groups x k =
      ap or_empty (get-put groups (key x) k (or_empty (get groups (key x)) ++ value x ∷ []))
      ∙ elim (Bool-cases (e.beq (key x) k)) [
        | inl same ↦
            rw same
              (ap (λ j. or_empty (get groups j) ++ value x ∷ []) ((e.beq_iff (key x) k).0 same))
        | inr other ↦ rw other (sym (append-nil (or_empty (get groups k))))
      ]

  -- Grouping gives each key its rows, in their order, behind those that it had.
  pub grouped-values :
      (groups : Dict K (List B)) (xs : List A) (k : K)
      → or_empty (get (grouped key value groups xs) k) ≡ or_empty (get groups k) ++ values_of k xs
  unfolding grouped
  grouped-values groups [] k = sym (append-nil (or_empty (get groups k)))
  grouped-values groups (x ∷ xs) k =
      grouped-values (append_to groups (key x) (value x)) xs k
      ∙ ap (λ l. l ++ values_of k xs) (append_to-own groups x k)
      ∙ elim (Bool-cases (e.beq (key x) k)) [
        | inl same ↦
            rw same (append_assoc (or_empty (get groups k)) (value x ∷ []) (values_of k xs))
        | inr other ↦
            rw other (ap (λ l. l ++ values_of k xs) (append-nil (or_empty (get groups k))))
      ]

  pub grouped-NodupKeys :
      (groups : Dict K (List B)) (xs : List A)
      → NodupKeys groups
      → NodupKeys (grouped key value groups xs)
  unfolding grouped
  grouped-NodupKeys groups [] h = h
  grouped-NodupKeys groups (x ∷ xs) h =
      grouped-NodupKeys (append_to groups (key x) (value x)) xs
        (put-NodupKeys groups (key x) (or_empty (get groups (key x)) ++ value x ∷ []) h)

  -- each group is the values of its key, all of them
  pub grouped-whole :
      (xs : List A) → All (λ (p : K × List B). p.1 ≡ values_of p.0 xs) (grouped key value [] xs)
  unfolding get
  grouped-whole xs =
      All-imp (λ (p : K × List B). get (grouped key value [] xs) p.0 ≡ some p.1)
        (λ (p : K × List B). p.1 ≡ values_of p.0 xs)
        (λ p found. sym (ap or_empty found) ∙ grouped-values [] xs p.0) (grouped key value [] xs)
        (get-entries (grouped key value [] xs) (grouped-NodupKeys [] xs tt))

  values_of-any :
      (p : B → Bool) (xs : List A) (x : A)
      → p (value x) ≡ true
      → any p (values_of (key x) (x ∷ xs)) ≡ true
  values_of-any p xs x good = rw ((e.beq_iff (key x) (key x)).1 refl) (ground (arith, good))

  values_of-later :
      (p : B → Bool) (k : K) (x : A) (xs : List A)
      → any p (values_of k xs) ≡ true
      → any p (values_of k (x ∷ xs)) ≡ true
  values_of-later p k x xs h =
      if-cases (λ l. any p (map value l) ≡ true) (e.beq (key x) k)
        {x = x ∷ keep (λ y. e.beq (key y) k) xs} (λ same. ground (arith, h)) (λ other. h)

  -- a row stands among the values of its key
  pub values_of-own :
      (p : A → B → Bool)
      → ((x : A) → p x (value x) ≡ true)
      → (xs : List A) → All (λ x. any (p x) (values_of (key x) xs) ≡ true) xs
  values_of-own p good [] = tt
  values_of-own p good (x ∷ xs) = (
    values_of-any (p x) xs x (good x),
    All-imp (λ y. any (p y) (values_of (key y) xs) ≡ true)
        (λ y. any (p y) (values_of (key y) (x ∷ xs)) ≡ true)
        (λ y h. values_of-later (p y) (key y) x xs h) xs (values_of-own p good xs),
  )

  present : (o : Option (List B)) → any (λ v. true) (or_empty o) ≡ true → presence o ≡ 1
  present none h = cc
  present (some l) h = refl

  -- each key of a row has one group
  pub grouped-once :
      (xs : List A)
      → All (λ x. count (λ (p : K × List B). e.beq p.0 (key x)) (grouped key value [] xs) ≡ 1) xs
  unfolding get
  grouped-once xs =
      All-imp (λ x. any (λ v. true) (values_of (key x) xs) ≡ true)
        (λ x. count (λ (p : K × List B). e.beq p.0 (key x)) (grouped key value [] xs) ≡ 1)
        (λ x has.
          count-entries (grouped key value [] xs) (key x) (grouped-NodupKeys [] xs tt)
          ∙ present (get (grouped key value [] xs) (key x))
              (ap (any (λ v. true)) (grouped-values [] xs (key x)) ∙ has))
        xs (values_of-own (λ x v. true) (λ x. refl) xs)
