-- ===== src/Stations/Automatic/Found.antt =====
-- What the two dicts of places hold, where no code stands twice.
use kor_travel_transport.Prelude.{
  ◌+◌, ◌≤◌, ◌<◌, ◌≡◌, refl, sym, ap, ◌∙◌, Bool, true, false, Option, none, some, List, [], ◌∷◌,
  keep, count, All, All-both, arith, if◌then◌else◌, if-true, if-false, Bool-cases, inl, inr,
  some-inj,
}
use kor_travel_transport.Prelude.Dict.{Dict, get, put, get-put, values}
use kor_travel_transport.Stations.{
  KricStation, RailStation, CodeKey, code_beq, code_eq, code_beq_iff, provider_key,
}
use kor_travel_transport.Stations.Manual.Valid.{code_beq_sym}
use kor_travel_transport.Stations.Automatic.{sole, collect_by, written}

abbrev pub or_else {ℓ} : {A : Type ℓ} → Option A → Option A → Option A
or_else none o = o
or_else (some a) o = some a

abbrev pub opt_is {ℓ} : {A : Type ℓ} → (A → Bool) → Option A → Bool
opt_is g none = false
opt_is g (some a) = g a

abbrev pub first {ℓ} : {A : Type ℓ} → (A → Bool) → List A → Option A
first g [] = none
first g (x ∷ xs) = let rest = first g xs in if g x then some x else rest

module _ {ℓ} {A : Type ℓ} where
  pub first-count : (g : A → Bool) (xs : List A) (a : A) → first g xs ≡ some a → 0 < count g xs
  first-count g [] a h = cc
  first-count g (x ∷ xs) a h = elim (Bool-cases (g x)) [
    | inl this ↦ ground (arith, this)
    | inr other ↦ ground (arith, other, first-count g xs a (sym (if-false _ _ other) ∙ h))
  ]

  sole-cons : (x : A) (xs : List A) (a : A) → sole (x ∷ xs) ≡ some a → x ≡ a
  sole-cons x [] a h = some-inj h
  sole-cons x (y ∷ ys) a h = cc

  -- the sole item of a kept part passes the test
  pub sole-keep : (q : A → Bool) (xs : List A) (a : A) → sole (keep q xs) ≡ some a → q a ≡ true
  sole-keep q [] a h = cc
  sole-keep q (x ∷ xs) a h = elim (Bool-cases (q x)) [
    | inl stays ↦
        let same = sole-cons x (keep q xs) a (ap sole (sym (if-true _ _ stays)) ∙ h) in
        ap q (sym same) ∙ stays
    | inr goes ↦ sole-keep q xs a (ap sole (sym (if-false _ _ goes)) ∙ h)
  ]

  -- it is the only one with what no two items have
  pub sole-first :
      (q g : A → Bool) (xs : List A) (a : A)
      → sole (keep q xs) ≡ some a
      → g a ≡ true
      → count g xs ≤ 1
      → first g xs ≡ some a
  sole-first q g [] a h ga once = cc
  sole-first q g (x ∷ xs) a h ga once = elim (Bool-cases (q x)) [
    | inl stays ↦
        let same = sole-cons x (keep q xs) a (ap sole (sym (if-true _ _ stays)) ∙ h) in
        if-true _ _ (ap g same ∙ ga) ∙ ap some same
    | inr goes ↦
        let fewer : count g xs ≤ 1 = ground (arith, once) in
        let rest = sole-first q g xs a (ap sole (sym (if-false _ _ goes)) ∙ h) ga fewer in
        elim (Bool-cases (g x)) [
          | inl this ↦ absurd (ground (arith, this, once, first-count g xs a rest))
          | inr other ↦ if-false _ _ other ∙ rest
        ]
  ]

-- no code stands twice
abbrev pub CodesOnce : List KricStation → Type 0
CodesOnce [] = Unit
CodesOnce (r ∷ rs) = All (λ s. code_beq (provider_key r) (provider_key s) ≡ false) rs × CodesOnce rs

written-get :
    (d : Dict CodeKey RailStation) (row : KricStation) (o : Option RailStation) (k : CodeKey)
    → get (written d row o) k
      ≡ (if code_beq (provider_key row) k then or_else o (get d k) else get d k)
written-get d row none k = ground arith
written-get d row (some place) k = get-put d (provider_key row) k place

module _ (find : KricStation → Option RailStation) where
  collect_by-others :
      (d : Dict CodeKey RailStation) (rows : List KricStation) (k : CodeKey)
      → All (λ s. code_beq k (provider_key s) ≡ false) rows
      → get (collect_by find d rows) k ≡ get d k
  unfolding collect_by
  collect_by-others d [] k h = refl
  collect_by-others d (row ∷ rows) k h =
      collect_by-others (written d row (find row)) rows k h.1
      ∙ written-get d row (find row) k
      ∙ if-false _ _ (code_beq_sym (provider_key row) k ∙ h.0)

  pub collect_by-get :
      (d : Dict CodeKey RailStation) (rows : List KricStation)
      → CodesOnce rows
      → All
          (λ r.
            get (collect_by find d rows) (provider_key r)
            ≡ or_else (find r) (get d (provider_key r)))
          rows
  unfolding collect_by
  collect_by-get d [] h = tt
  collect_by-get d (row ∷ rows) h = (
    collect_by-others (written d row (find row)) rows (provider_key row) h.0
        ∙ written-get d row (find row) (provider_key row)
        ∙ if-true _ _ ((code_beq_iff (provider_key row) (provider_key row)).1 refl),
    All-both
        (λ r.
          get (collect_by find (written d row (find row)) rows) (provider_key r)
          ≡ or_else (find r) (get (written d row (find row)) (provider_key r)))
        (λ s. code_beq (provider_key row) (provider_key s) ≡ false)
        (λ r.
          get (collect_by find (written d row (find row)) rows) (provider_key r)
          ≡ or_else (find r) (get d (provider_key r)))
        (λ r e apart.
          e
          ∙ ap (or_else (find r))
              (written-get d row (find row) (provider_key r) ∙ if-false _ _ apart))
        rows (collect_by-get (written d row (find row)) rows h.1) h.0,
  )

  count-values-put :
      (g : RailStation → Bool) (d : Dict CodeKey RailStation) (k : CodeKey) (p : RailStation)
      → get d k ≡ none
      → count g (values (put d k p)) ≡ count g (values d) + (if g p then 1 else 0)
  unfolding get put
  count-values-put g [] k p h = ground arith
  count-values-put g ((j, w) ∷ d) k p h = elim (Bool-cases (code_beq j k)) [
    | inl same ↦ cc (sym (if-true _ _ same) ∙ h)
    | inr other ↦ rw other (ground (arith, count-values-put g d k p (sym (if-false _ _ other) ∙ h)))
  ]

  written-count :
      (g : RailStation → Bool) (d : Dict CodeKey RailStation) (row : KricStation)
      (o : Option RailStation)
      → get d (provider_key row) ≡ none
      → count g (values (written d row o)) ≡ count g (values d) + (if opt_is g o then 1 else 0)
  written-count g d row none h = ground arith
  written-count g d row (some p) h = count-values-put g d (provider_key row) p h

  -- the values of the dict are the places that were found
  pub collect_by-count :
      (g : RailStation → Bool) (d : Dict CodeKey RailStation) (rows : List KricStation)
      → CodesOnce rows
      → All (λ r. get d (provider_key r) ≡ none) rows
      → count g (values (collect_by find d rows))
        ≡ count g (values d) + count (λ r. opt_is g (find r)) rows
  unfolding collect_by
  collect_by-count g d [] once fresh = omega arith
  collect_by-count g d (row ∷ rows) once fresh =
      let others =
        All-both (λ r. get d (provider_key r) ≡ none)
          (λ s. code_beq (provider_key row) (provider_key s) ≡ false)
          (λ r. get (written d row (find row)) (provider_key r) ≡ none)
          (λ r e apart. written-get d row (find row) (provider_key r) ∙ if-false _ _ apart ∙ e) rows
          fresh.1 once.0 in
      ground (
        arith,
        collect_by-count g (written d row (find row)) rows once.1 others,
        written-count g d row (find row) fresh.0,
      )
