-- ===== src/Stations/Effective/Saved.antt =====
-- The links that an administrator saves take effect.
use kor_travel_transport.Prelude.{
  ◌+◌, ◌≤◌, ◌≡◌, refl, sym, ◌∙◌, subst, true, false, some, List, [], ◌∷◌, map, any, count, All,
  All-both, All-imp, arith, if◌then◌else◌, if-true, if-false, Bool-cases, inl, inr,
}
use kor_travel_transport.Prelude.Chars.{Text, text_beq, text_beq_self, text_beq_sym}
use kor_travel_transport.Prelude.Dict.{get, put, get-put}
use kor_travel_transport.Stations.{
  KricStation, RailStation, CodeKey, code_beq, code_eq, code_beq_iff,
}
use kor_travel_transport.Stations.Manual.{ManualMapping, Mappings, ok, validate_manual_mappings}
use kor_travel_transport.Stations.Manual.Valid.{validate_manual_mappings-IsValid}
use kor_travel_transport.Stations.Effective.{
  Links, StoredLink, link, manual, is_skipped, manual_loop, automatic_loop, by_key, active_keys,
  effective_station_mappings,
}
use kor_travel_transport.Stations.Effective.Once.{automatic_loop-kept}

abbrev pub stored_manual : ManualMapping → StoredLink
stored_manual m = record { code = m.code; target = m.target }

module _ (active : List CodeKey) (places : List RailStation) where
  -- a code that no item has keeps what it has
  manual_loop-others :
      (links : Links) (reserved : List Text) (ms : List ManualMapping) (k : CodeKey)
      → count (λ m. code_beq m.code k) ms ≤ 0
      → get (manual_loop active places links reserved (map stored_manual ms)).0 k ≡ get links k
  unfolding manual_loop
  manual_loop-others links reserved [] k h = refl
  manual_loop-others links reserved (m ∷ ms) k h =
      let other : code_beq m.code k ≡ false = ground (arith, h) in
      let rest : count (λ m. code_beq m.code k) ms ≤ 0 = ground (arith, h, other) in
      elim (Bool-cases (is_skipped active places reserved (stored_manual m))) [
        | inl skipped ↦ rw skipped (manual_loop-others links reserved ms k rest)
        | inr kept ↦ rw kept (
            manual_loop-others (put links m.code (link m.target manual)) (m.target ∷ reserved) ms k
              rest
            ∙ get-put links m.code k (link m.target manual)
            ∙ if-false _ _ other)
      ]

  -- an item of a known code, whose target is one place
  abbrev pub IsKnown : ManualMapping → Type 0
  IsKnown m =
      (any (code_beq m.code) active ≡ true)
      × (count (λ p. text_beq p.identity_key m.target) places ≡ 1)

  manual_loop-saved :
      (links : Links) (reserved : List Text) (ms : List ManualMapping)
      → ((k : CodeKey) → count (λ m. code_beq m.code k) ms ≤ 1)
      → ((t : Text)
          → count (λ m. text_beq m.target t) ms + (if any (text_beq t) reserved then 1 else 0) ≤ 1)
      → All IsKnown ms
      → All
          (λ m.
            get (manual_loop active places links reserved (map stored_manual ms)).0 m.code
            ≡ some (link m.target manual))
          ms
  unfolding manual_loop
  manual_loop-saved links reserved [] codes targets known = tt
  manual_loop-saved links reserved (m ∷ ms) codes targets known =
      let self = (code_beq_iff m.code m.code).1 refl in
      let fresh : any (text_beq m.target) reserved ≡ false =
        ground (arith, targets m.target, text_beq_self m.target) in
      let kept : is_skipped active places reserved (stored_manual m) ≡ false =
        ground (arith, fresh, known.0) in
      let last : count (λ n. code_beq n.code m.code) ms ≤ 0 = ground (arith, codes m.code, self) in
      let links' = put links m.code (link m.target manual) in
      let loop = manual_loop active places links' (m.target ∷ reserved) (map stored_manual ms) in
      subst
        (λ (r : Links × List Text).
          All (λ n. get r.0 n.code ≡ some (link n.target manual)) (m ∷ ms))
        (sym (if-false (manual_loop active places links reserved (map stored_manual ms)) loop kept))
        (
          manual_loop-others links' (m.target ∷ reserved) ms m.code last
              ∙ get-put links m.code m.code (link m.target manual)
              ∙ if-true _ _ self,
          manual_loop-saved links' (m.target ∷ reserved) ms (λ k. ground (arith, codes k))
              (λ t. ground (arith, targets t, text_beq_sym t m.target)) known.1,
        )

-- What the form accepts, for a catalog of active codes and targets that are each one place of the
-- reference file, is what the codes are then linked to, by hand: whatever the automatic links are.
pub validate_manual_mappings-effective :
    (raw : Mappings) (catalog : List CodeKey) (ms : List ManualMapping)
    (enumerate : List CodeKey → List CodeKey) (codes : List KricStation) (places : List RailStation)
    (automatic_items : List StoredLink)
    → validate_manual_mappings raw catalog ≡ ok ms
    → ((k : CodeKey)
        → any (code_beq k) catalog ≡ true
        → any (code_beq k) (active_keys codes) ≡ true)
    → All (λ m. count (λ p. text_beq p.identity_key m.target) places ≡ 1) ms
    → All
        (λ m.
          get
            (effective_station_mappings enumerate codes places automatic_items
              (map stored_manual ms))
            m.code
          ≡ some (link m.target manual))
        ms
unfolding effective_station_mappings
validate_manual_mappings-effective raw catalog ms enumerate codes places automatic_items accepted
      active known =
    let valid = validate_manual_mappings-IsValid raw catalog ms accepted in
    let keys = active_keys codes in
    let taken = manual_loop keys places [] [] (map stored_manual ms) in
    All-imp (λ m. get taken.0 m.code ≡ some (link m.target manual))
      (λ m.
        get (automatic_loop (by_key [] automatic_items) taken (enumerate keys)).0 m.code
        ≡ some (link m.target manual))
      (λ m there.
        automatic_loop-kept (by_key [] automatic_items) taken (enumerate keys) m.code
          (link m.target manual) there)
      ms
      (manual_loop-saved keys places [] [] ms valid.codes_once
        (λ t. omega (arith, valid.targets_once t))
        (All-both (λ m. any (code_beq m.code) catalog ≡ true)
          (λ m. count (λ p. text_beq p.identity_key m.target) places ≡ 1) (IsKnown keys places)
          (λ m c p. (active m.code c, p)) ms valid.in_catalog known))
