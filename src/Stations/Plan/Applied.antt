-- ===== src/Stations/Plan/Applied.antt =====
-- A plan without blockers is written without a conflict, and the table then holds its links.
use kor_travel_transport.Prelude.{
  ℕ, ◌≤◌, ◌≡◌, refl, sym, ap, ◌∙◌, Bool, true, false, Option, none, some, List, [], ◌∷◌, map, keep,
  count, All, All-imp, arith, ◌==◌, ◌&&◌, ◌||◌, if◌then◌else◌, if-true, if-false, Bool-cases, inl,
  inr, ◌⊎◌,
}
use kor_travel_transport.Prelude.Chars.{Text}
use kor_travel_transport.Prelude.Sort.{sorted, sorted-All, any-sorted}
use kor_travel_transport.Stations.{
  KricStation, RailStation, CodeKey, code_beq, code_beq_iff, provider_key,
}
use kor_travel_transport.Stations.Effective.{Links}
use kor_travel_transport.Stations.Effective.Once.{links_to}
use kor_travel_transport.Stations.Automatic.Found.{CodesOnce}
use kor_travel_transport.Stations.Plan.{
  Updates, same_station, target_id, blockers, has_station, link_updates, cleared, flush,
  flush_again, relink,
}
use kor_travel_transport.Stations.Plan.Writes.{
  with_id, covers, ids_after, IsWrite, flush-ids, written, ids_after-same,
}
use kor_travel_transport.Stations.Plan.Updates.{
  same_station_eq, has_key, is_missed, to, link_updates-IsTargeted, link_updates_complete,
}
use kor_travel_transport.Stations.Plan.Final.{final_id, final-once, no_blockers}

abbrev own_id : KricStation → Option ℕ
own_id r = r.rail_station_id

map-own : (rows : List KricStation) → map (with_id own_id) rows ≡ rows
map-own [] = refl
map-own (r ∷ rows) = ap (λ rest. r ∷ rest) (map-own rows)

map-same :
    (g h : KricStation → Option ℕ) (rows : List KricStation)
    → All (λ r. g r ≡ h r) rows
    → map (with_id g) rows ≡ map (with_id h) rows
map-same g h [] same = refl
map-same g h (r ∷ rows) same =
    cc (ap (λ o. record r { rail_station_id = o }) same.0, map-same g h rows same.1)

cleared-none : (us : Updates) → All (λ w. w.1 ≡ none) (map cleared us)
cleared-none [] = tt
cleared-none ((k, v) ∷ us) = (refl, cleared-none us)

has_key-cleared : (us : Updates) (k : CodeKey) → has_key (map cleared us) k ≡ has_key us k
has_key-cleared [] k = refl
has_key-cleared ((j, v) ∷ us) k = ap (λ b. code_beq k j || b) (has_key-cleared us k)

All-each {ℓ} : {A : Type ℓ} (P : A → Type 0) → ((x : A) → P x) → (xs : List A) → All P xs
All-each P f [] = tt
All-each P f (x ∷ xs) = (f x, All-each P f xs)

module _ (order : CodeKey → CodeKey → Bool) (places : List RailStation) (after : Links)
    (us : Updates) where
  abbrev sent : CodeKey × Option ℕ → CodeKey × Option ℕ → Bool
  sent a b = order a.0 b.0

  abbrev first_writes : Updates
  first_writes = sorted sent (map cleared us)

  abbrev second_writes : Updates
  second_writes = sorted sent us

  abbrev between : KricStation → Option ℕ
  between = ids_after first_writes own_id

  first_none : All (λ w. w.1 ≡ none) first_writes
  first_none = sorted-All sent (λ w. w.1 ≡ none) (map cleared us) (cleared-none us)

  between-id : (r : KricStation) → between r ≡ (if written us r then none else own_id r)
  between-id r =
      ids_after-same first_writes own_id r none (
        All-imp (λ w. w.1 ≡ none) (λ w. code_beq (provider_key r) w.0 ≡ true → w.1 ≡ none)
          (λ w h _. h) first_writes first_none)
      ∙ ap (λ b. if r.active && b then none else own_id r)
          (any-sorted sent (λ w. code_beq (provider_key r) w.0) (map cleared us)
            ∙ has_key-cleared us (provider_key r))

  module _ (targeted : All (λ w. w.1 ≡ target_id places after w.0) us) where
    second_targeted : All (λ w. w.1 ≡ target_id places after w.0) second_writes
    second_targeted = sorted-All sent (λ w. w.1 ≡ target_id places after w.0) us targeted

    after-id :
        (g : KricStation → Option ℕ) (r : KricStation)
        → ids_after second_writes g r ≡ (if written us r then to places after r else g r)
    after-id g r =
        ids_after-same second_writes g r (to places after r) (
          All-imp (λ w. w.1 ≡ target_id places after w.0)
            (λ w. code_beq (provider_key r) w.0 ≡ true → w.1 ≡ to places after r)
            (λ w h e.
              h ∙ ap (target_id places after) (sym ((code_beq_iff (provider_key r) w.0).0 e)))
            second_writes second_targeted)
        ∙ ap (λ b. if r.active && b then to places after r else g r)
            (any-sorted sent (λ w. code_beq (provider_key r) w.0) us)

    -- the place of a row without an update is final
    settled :
        (r : KricStation)
        → (r.active ≡ true → is_missed places after us r ≡ false)
        → written us r ≡ false
        → own_id r ≡ final_id places after r
    settled r complete h = elim (Bool-cases r.active) [
      | inl active ↦
          let missed = complete active in
          let same : same_station r.rail_station_id (to places after r) ≡ true =
            ground (arith, missed, h, active) in
          same_station_eq r.rail_station_id (to places after r) same ∙ sym (if-true _ _ active)
      | inr inactive ↦ sym (if-false _ _ inactive)
    ]

    between-part :
        (r : KricStation)
        → (r.active ≡ true → is_missed places after us r ≡ false)
        → (between r ≡ none) ⊎ (between r ≡ final_id places after r)
    between-part r complete = elim (Bool-cases (written us r)) [
      | inl sent_row ↦ inl (between-id r ∙ if-true _ _ sent_row)
      | inr kept ↦ inr (between-id r ∙ if-false _ _ kept ∙ settled r complete kept)
    ]

    after-final :
        (r : KricStation)
        → (r.active ≡ true → is_missed places after us r ≡ false)
        → ids_after second_writes between r ≡ final_id places after r
    after-final r complete = elim (Bool-cases (written us r)) [
      | inl sent_row ↦
          let active : r.active ≡ true = ground (arith, sent_row) in
          after-id between r ∙ if-true _ _ sent_row ∙ sym (if-true _ _ active)
      | inr kept ↦
          after-id between r
          ∙ if-false _ _ kept
          ∙ between-id r
          ∙ if-false _ _ kept
          ∙ settled r complete kept
    ]

    second-IsWrite :
        (codes : List KricStation) → All (IsWrite (final_id places after) codes) second_writes
    second-IsWrite codes =
        All-imp (λ w. w.1 ≡ target_id places after w.0) (IsWrite (final_id places after) codes)
          (λ w h.
            All-each (λ r. covers w.0 r ≡ true → (w.1 ≡ none) ⊎ (w.1 ≡ final_id places after r))
              (λ r covered.
                let active : r.active ≡ true = ground (arith, covered) in
                let same : code_beq (provider_key r) w.0 ≡ true = ground (arith, covered) in
                inr (
                  h
                  ∙ ap (target_id places after) (sym ((code_beq_iff (provider_key r) w.0).0 same))
                  ∙ sym (if-true _ _ active)))
              codes)
          second_writes second_targeted

-- Where the table holds no place twice, no code of an active row and no id of a place stands twice, no place
-- is linked to two codes, and the plan has no blockers: in whatever order each flush sends its updates, no
-- write breaks the constraint, and then every active row has the place that its code is linked to, or none
-- where it has no link, and everything else is as before.
pub relink-linked :
    (order : CodeKey → CodeKey → Bool) (places : List RailStation) (before after : Links)
    (codes : List KricStation)
    → CodesOnce (keep (λ r. r.active) codes)
    → ((n : ℕ) → count (λ p. p.id == n) places ≤ 1)
    → ((t : Text) → links_to t after ≤ 1)
    → ((n : ℕ) → count (has_station n) codes ≤ 1)
    → blockers places before after codes ≡ []
    → relink order (link_updates places after (keep (λ r. r.active) codes)) codes
      ≡ some (map (with_id (final_id places after)) codes)
unfolding relink
relink-linked order places before after codes once ids links unique free =
    let us = link_updates places after (keep (λ r. r.active) codes) in
    let targeted = link_updates-IsTargeted places after (keep (λ r. r.active) codes) in
    let complete = link_updates_complete places after codes in
    let firsts = first_writes order places after us in
    let seconds = second_writes order places after us in
    let emptied =
      flush-ids own_id firsts own_id codes unique
        (All-imp (λ w. w.1 ≡ none) (IsWrite own_id codes)
          (λ w h.
            All-each (λ r. covers w.0 r ≡ true → (w.1 ≡ none) ⊎ (w.1 ≡ own_id r)) (λ r _. inl h)
              codes)
          firsts (first_none order places after us))
        (All-each (λ r. (own_id r ≡ none) ⊎ (own_id r ≡ own_id r)) (λ r. inr refl) codes) in
    let refilled =
      flush-ids (final_id places after) seconds (between order places after us) codes
        (λ n.
          final-once places after codes n once (ids n) links
            (no_blockers places before after codes free) (unique n))
        (second-IsWrite order places after us targeted codes)
        (All-imp (λ r. r.active ≡ true → is_missed places after us r ≡ false)
          (λ r.
            (between order places after us r ≡ none)
            ⊎ (between order places after us r ≡ final_id places after r))
          (between-part order places after us targeted) codes complete) in
    ap (λ rows. flush_again seconds (flush firsts rows)) (sym (map-own codes))
    ∙ ap (flush_again seconds) emptied
    ∙ refilled
    ∙ ap some (
        map-same (ids_after seconds (between order places after us)) (final_id places after) codes (
          All-imp (λ r. r.active ≡ true → is_missed places after us r ≡ false)
            (λ r. ids_after seconds (between order places after us) r ≡ final_id places after r)
            (after-final order places after us targeted) codes complete))
