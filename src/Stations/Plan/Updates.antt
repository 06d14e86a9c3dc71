-- ===== src/Stations/Plan/Updates.antt =====
-- What the dict of updates holds.
use kor_travel_transport.Prelude.{
  ℕ, ◌≡◌, refl, sym, ap, ◌∙◌, Bool, true, false, not, Option, none, some, List, [], ◌∷◌, keep, any,
  All, arith, subst, ==_iff, ◌&&◌, if-true, if-false, Bool-cases, inl, inr,
}
use kor_travel_transport.Prelude.Dict.{put, put-All}
use kor_travel_transport.Prelude.Sort.{sorted, any-sorted}
use kor_travel_transport.Stations.{
  KricStation, RailStation, CodeKey, code_beq, code_eq, code_beq_iff, provider_key,
}
use kor_travel_transport.Stations.Effective.{Links}
use kor_travel_transport.Stations.Plan.{
  Updates, same_station, target_id, key_before, with_update, updates_from, link_updates,
}

pub same_station_eq : (a b : Option ℕ) → same_station a b ≡ true → a ≡ b
same_station_eq none none h = refl
same_station_eq none (some n) h = cc
same_station_eq (some m) none h = cc
same_station_eq (some m) (some n) h = ap some (sym ((==_iff n m).0 h))

module _ {ℓ} {A : Type ℓ} where
  pub any-none : (p : A → Bool) (xs : List A) → any p xs ≡ false → All (λ x. p x ≡ false) xs
  any-none p [] h = tt
  any-none p (x ∷ xs) h = (ground (arith, h), any-none p xs (ground (arith, h)))

  pub none-any : (p : A → Bool) (xs : List A) → All (λ x. p x ≡ false) xs → any p xs ≡ false
  none-any p [] h = refl
  none-any p (x ∷ xs) h = ground (arith, h.0, none-any p xs h.1)

  -- what is false of the kept items is false of all, but where they are not kept
  pub keep-All :
      (p q : A → Bool) (xs : List A)
      → All (λ x. q x ≡ false) (keep p xs)
      → All (λ x. p x ≡ true → q x ≡ false) xs
  keep-All p q [] h = tt
  keep-All p q (x ∷ xs) h = elim (Bool-cases (p x)) [
    | inl stays ↦
        let h' = subst (λ l. All (λ x. q x ≡ false) l) (if-true _ _ stays) h in
        (λ k. h'.0, keep-All p q xs h'.1)
    | inr goes ↦
        let h' = subst (λ l. All (λ x. q x ≡ false) l) (if-false _ _ goes) h in
        (λ k. cc (k, goes), keep-All p q xs h')
  ]

-- the dict has a key
abbrev pub has_key : Updates → CodeKey → Bool
has_key d k = any (λ w. code_beq k w.0) d

has_key-put :
    (d : Updates) (j k : CodeKey) (v : Option ℕ) → has_key d k ≡ true → has_key (put d j v) k ≡ true
unfolding put
has_key-put [] j k v h = cc
has_key-put ((i, w) ∷ d) j k v h = elim (Bool-cases (code_beq i j)) [
  | inl same ↦ rw same h
  | inr other ↦ elim (Bool-cases (code_beq k i)) [
    | inl this ↦ rw (other, this) refl
    | inr later ↦ rw other (rw later (has_key-put d j k v (ground (arith, later, h))))
  ]
]

has_key-new : (d : Updates) (k : CodeKey) (v : Option ℕ) → has_key (put d k v) k ≡ true
unfolding put
has_key-new [] k v = ground (arith, (code_beq_iff k k).1 refl)
has_key-new ((i, w) ∷ d) k v = elim (Bool-cases (code_beq i k)) [
  | inl same ↦
      let back = (code_beq_iff k i).1 (sym ((code_beq_iff i k).0 same)) in
      rw same (ground (arith, back))
  | inr other ↦ rw other (ground (arith, has_key-new d k v))
]

module _ (places : List RailStation) (after : Links) where
  -- each value is the place that its key is linked to
  abbrev pub IsTargeted : Updates → Type 0
  IsTargeted d = All (λ w. w.1 ≡ target_id places after w.0) d

  abbrev pub to : KricStation → Option ℕ
  to r = target_id places after (provider_key r)

  -- a row with another place than the one it is linked to, and without an update
  abbrev pub is_missed : Updates → KricStation → Bool
  is_missed d r = not (same_station r.rail_station_id (to r)) && not (has_key d (provider_key r))

  with_update-IsTargeted :
      (d : Updates) (r : KricStation) → IsTargeted d → IsTargeted (with_update d r (to r))
  with_update-IsTargeted d r h = elim (Bool-cases (same_station r.rail_station_id (to r))) [
    | inl same ↦ rw same h
    | inr other ↦ rw other (
        put-All (λ w. w.1 ≡ target_id places after w.0) d (provider_key r) (to r)
          (λ j e. ap (target_id places after) (sym ((code_beq_iff j (provider_key r)).0 e))) refl h)
  ]

  with_update-has_key :
      (d : Updates) (r : KricStation) (k : CodeKey)
      → has_key d k ≡ true
      → has_key (with_update d r (to r)) k ≡ true
  with_update-has_key d r k h = elim (Bool-cases (same_station r.rail_station_id (to r))) [
    | inl same ↦ rw same h
    | inr other ↦ rw other (has_key-put d (provider_key r) k (to r) h)
  ]

  updates_from-has_key :
      (d : Updates) (rows : List KricStation) (k : CodeKey)
      → has_key d k ≡ true
      → has_key (updates_from places after d rows) k ≡ true
  unfolding updates_from
  updates_from-has_key d [] k h = h
  updates_from-has_key d (r ∷ rows) k h =
      updates_from-has_key (with_update d r (to r)) rows k (with_update-has_key d r k h)

  with_update-found : (d : Updates) (r : KricStation) → is_missed (with_update d r (to r)) r ≡ false
  with_update-found d r = elim (Bool-cases (same_station r.rail_station_id (to r))) [
    | inl same ↦ rw same refl
    | inr other ↦ rw other (ground (arith, has_key-new d (provider_key r) (to r)))
  ]

  updates_from-IsTargeted :
      (d : Updates) (rows : List KricStation)
      → IsTargeted d
      → IsTargeted (updates_from places after d rows)
  unfolding updates_from
  updates_from-IsTargeted d [] h = h
  updates_from-IsTargeted d (r ∷ rows) h =
      updates_from-IsTargeted (with_update d r (to r)) rows (with_update-IsTargeted d r h)

  is_missed-later :
      (d e : Updates) (r : KricStation)
      → (has_key d (provider_key r) ≡ true → has_key e (provider_key r) ≡ true)
      → is_missed d r ≡ false
      → is_missed e r ≡ false
  is_missed-later d e r grows h = elim (Bool-cases (has_key d (provider_key r))) [
    | inl there ↦ ground (arith, grows there)
    | inr absent ↦ ground (arith, absent, h)
  ]

  updates_from_complete :
      (d : Updates) (rows : List KricStation)
      → All (λ r. is_missed (updates_from places after d rows) r ≡ false) rows
  unfolding updates_from
  updates_from_complete d [] = tt
  updates_from_complete d (r ∷ rows) =
      let d' = with_update d r (to r) in
      (
        is_missed-later d' (updates_from places after d' rows) r
            (updates_from-has_key d' rows (provider_key r)) (with_update-found d r),
        updates_from_complete d' rows,
      )

  pub link_updates-IsTargeted :
      (rows : List KricStation) → IsTargeted (link_updates places after rows)
  unfolding link_updates
  link_updates-IsTargeted rows = updates_from-IsTargeted [] (sorted key_before rows) tt

  -- an active row without an update has the place that it is linked to
  pub link_updates_complete :
      (codes : List KricStation)
      → All
          (λ r.
            r.active ≡ true
            → is_missed (link_updates places after (keep (λ r. r.active) codes)) r ≡ false)
          codes
  unfolding link_updates
  link_updates_complete codes =
      let rows = keep (λ r. r.active) codes in
      let missed = is_missed (link_updates places after rows) in
      keep-All (λ r. r.active) missed codes
        (any-none missed rows (
          sym (any-sorted key_before missed rows)
          ∙ none-any missed (sorted key_before rows)
              (updates_from_complete [] (sorted key_before rows))))
