-- ===== src/Stations/Plan/Targets.antt =====
-- The places that the table is to hold: no two rows the same one.
use kor_travel_transport.Prelude.{
  ℕ, ◌+◌, ◌≤◌, ◌≡◌, refl, sym, ap, ◌∙◌, Bool, true, false, Option, none, some, List, [], ◌∷◌, keep,
  count, All, All-imp, arith, ◌==◌, ◌&&◌, if◌then◌else◌, if-true, if-false, Bool-cases,
  Option-cases, inl, inr,
}
use kor_travel_transport.Prelude.Chars.{Text, text_beq, text_eq, text_beq_iff}
use kor_travel_transport.Prelude.Dict.{Dict, get, put, put-All, get-All}
use kor_travel_transport.Stations.{
  KricStation, RailStation, CodeKey, code_beq, code_eq, code_beq_iff, provider_key,
}
use kor_travel_transport.Stations.Effective.{Link, Links}
use kor_travel_transport.Stations.Effective.Once.{links_to}
use kor_travel_transport.Stations.Automatic.Found.{CodesOnce, first, first-count}
use kor_travel_transport.Stations.Plan.{is_station, by_identity, id_of_place, id_of_link}

module _ {ℓ} {A : Type ℓ} where
  pub count-keep : (p q : A → Bool) (xs : List A) → count q (keep p xs) ≡ count (λ x. p x && q x) xs
  count-keep p q [] = refl
  count-keep p q (x ∷ xs) = elim (Bool-cases (p x)) [
    | inl stays ↦ rw stays (ground (arith, count-keep p q xs))
    | inr goes ↦ rw goes (count-keep p q xs)
  ]

  count-imp :
      (p q : A → Bool) (xs : List A)
      → All (λ x. p x ≡ true → q x ≡ true) xs
      → count p xs ≤ count q xs
  count-imp p q [] h = omega arith
  count-imp p q (x ∷ xs) h = elim (Bool-cases (p x)) [
    | inl holds ↦ ground (arith, holds, h.0 holds, count-imp p q xs h.1)
    | inr fails ↦ ground (arith, fails, count-imp p q xs h.1)
  ]

  pub count-absent : (p : A → Bool) (xs : List A) → All (λ x. p x ≡ false) xs → count p xs ≡ 0
  count-absent p [] h = refl
  count-absent p (x ∷ xs) h = ground (arith, h.0, count-absent p xs h.1)

  -- where at most one item passes, it is the first one that does
  first-only :
      (g : A → Bool) (xs : List A) → count g xs ≤ 1 → All (λ x. g x ≡ true → first g xs ≡ some x) xs
  first-only g [] once = tt
  first-only g (x ∷ xs) once = (
    λ holds. if-true _ _ holds,
    All-imp (λ y. g y ≡ true → first g xs ≡ some y) (λ y. g y ≡ true → first g (x ∷ xs) ≡ some y)
        (λ y found holds. elim (Bool-cases (g x)) [
          | inl this ↦ absurd (ground (arith, this, once, first-count g xs y (found holds)))
          | inr other ↦ if-false _ _ other ∙ found holds
        ])
        xs (first-only g xs (ground (arith, once))),
  )

module _ (places : List RailStation) (n : ℕ) where
  abbrev pub is_n : RailStation → Bool
  is_n p = p.id == n

  -- an entry stands under its identity key, and is the place `n` only if that is the first one
  abbrev IsEntry : Text × RailStation → Type 0
  IsEntry e = (e.1.identity_key ≡ e.0) × (is_n e.1 ≡ true → first is_n places ≡ some e.1)

  by_identity-IsEntry :
      (d : Dict Text RailStation) (ps : List RailStation)
      → All (λ p. is_n p ≡ true → first is_n places ≡ some p) ps
      → All IsEntry d
      → All IsEntry (by_identity d ps)
  by_identity-IsEntry d [] h all_d = all_d
  by_identity-IsEntry d (p ∷ ps) h all_d = by_identity-IsEntry (put d p.identity_key p) ps h.1 (
      put-All IsEntry d p.identity_key p (λ j e. (sym ((text_beq_iff j p.identity_key).0 e), h.0))
        (refl, h.0) all_d)

  -- the identity key of the place `n`
  abbrev key_of_n : Option RailStation → Text
  key_of_n none = []
  key_of_n (some p) = p.identity_key

  abbrev pub leads : Link → Bool
  leads l = is_station (id_of_place (get (by_identity [] places) l.target)) n

  leads-target :
      count is_n places ≤ 1
      → (l : Link) → leads l ≡ true
      → text_beq l.target (key_of_n (first is_n places)) ≡ true
  leads-target once l h = elim (Option-cases (get (by_identity [] places) l.target)) [
    | inl missing ↦ cc (sym (ap (λ o. is_station (id_of_place o) n) missing) ∙ h)
    | inr (p, found) ↦
        let entry =
          get-All IsEntry (by_identity [] places) l.target p
            (by_identity-IsEntry [] places (first-only is_n places once) tt) found in
        let this : is_n p ≡ true = sym (ap (λ o. is_station (id_of_place o) n) found) ∙ h in
        (text_beq_iff l.target (key_of_n (first is_n places))).1
          (sym entry.0 ∙ sym (ap key_of_n (entry.1 this)))
  ]

  pub entries_once :
      count is_n places ≤ 1
      → (after : Links) → ((t : Text) → links_to t after ≤ 1)
      → count (λ (e : CodeKey × Link). leads e.1) after ≤ 1
  entries_once once after links = omega (
    arith,
    links (key_of_n (first is_n places)),
    count-imp (λ (e : CodeKey × Link). leads e.1)
        (λ e. text_beq e.1.target (key_of_n (first is_n places))) after (entries after),
  )
    where
      entries :
          (es : Links)
          → All
              (λ (e : CodeKey × Link).
                leads e.1 ≡ true → text_beq e.1.target (key_of_n (first is_n places)) ≡ true)
              es
      entries [] = tt
      entries ((k, l) ∷ es) = (leads-target once l, entries es)

  abbrev pub leads_opt : Option Link → Bool
  leads_opt o = is_station (id_of_link (by_identity [] places) o) n

  key_once :
      (k : CodeKey) (rows : List KricStation)
      → CodesOnce rows
      → count (λ r. code_beq k (provider_key r)) rows ≤ 1
  key_once k [] once = omega arith
  key_once k (r ∷ rows) once = elim (Bool-cases (code_beq k (provider_key r))) [
    | inl this ↦
        let absent = count-absent (λ s. code_beq (provider_key r) (provider_key s)) rows once.0 in
        let same = (code_beq_iff k (provider_key r)).0 this in
        let none_left : count (λ s. code_beq k (provider_key s)) rows ≡ 0 =
          ap (λ j. count (λ s. code_beq j (provider_key s)) rows) same ∙ absent in
        ground (arith, this, none_left)
    | inr other ↦ ground (arith, other, key_once k rows once.1)
  ]

  get-split :
      (k : CodeKey) (l : Link) (after : Links) (rows : List KricStation)
      → count (λ r. leads_opt (get ((k, l) ∷ after) (provider_key r))) rows
        ≤ count (λ r. code_beq k (provider_key r) && leads l) rows
          + count (λ r. leads_opt (get after (provider_key r))) rows
  unfolding get
  get-split k l after [] = omega arith
  get-split k l after (r ∷ rows) = elim (Bool-cases (code_beq k (provider_key r))) [
    | inl this ↦ rw this (ground (arith, get-split k l after rows))
    | inr other ↦ rw other (ground (arith, get-split k l after rows))
  ]

  count-const :
      (p : KricStation → Bool) (b : Bool) (rows : List KricStation)
      → count (λ r. p r && b) rows ≤ (if b then count p rows else 0)
  count-const p b [] = ground arith
  count-const p b (r ∷ rows) = ground (arith, count-const p b rows)

  none_lead : (rows : List KricStation) → count (λ r. leads_opt (get [] (provider_key r))) rows ≤ 0
  unfolding get
  none_lead [] = omega arith
  none_lead (r ∷ rows) = none_lead rows

  -- with no code twice, no more rows lead to `n` than links
  pub rows_lead :
      (after : Links) (rows : List KricStation)
      → CodesOnce rows
      → count (λ r. leads_opt (get after (provider_key r))) rows
        ≤ count (λ (e : CodeKey × Link). leads e.1) after
  rows_lead [] rows once = none_lead rows
  rows_lead ((k, l) ∷ after) rows once = ground (
    arith,
    get-split k l after rows,
    count-const (λ r. code_beq k (provider_key r)) (leads l) rows,
    key_once k rows once,
    rows_lead after rows once,
  )
