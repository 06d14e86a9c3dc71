-- ===== src/Stations/Apply/Linked.antt =====
-- What an administrator's click on "apply" leaves in the table of codes.
use kor_travel_transport.Prelude.{
  ℕ, ◌≤◌, ◌≡◌, refl, sym, ap, ◌∙◌, subst, Bool, true, false, not, Option, List, [], ◌∷◌, map, any,
  count, length, arith, ◌==◌, ==_iff, ◌||◌, if◌then◌else◌, if-cases, Bool-cases, inl, inr,
}
use kor_travel_transport.Prelude.Chars.{Text, text_beq}
use kor_travel_transport.Stations.{KricStation, RailStation, CodeKey, code_beq, provider_key}
use kor_travel_transport.Stations.Effective.Once.{effective_station_mappings-once}
use kor_travel_transport.Stations.Automatic.Found.{CodesOnce}
use kor_travel_transport.Stations.Plan.{Blocker, has_station, is_station, blockers, relink}
use kor_travel_transport.Stations.Plan.Writes.{with_id}
use kor_travel_transport.Stations.Plan.Updates.{any-none}
use kor_travel_transport.Stations.Plan.Final.{final_id, final-once, no_blockers}
use kor_travel_transport.Stations.Plan.Applied.{relink-linked}
use kor_travel_transport.Stations.Apply.{
  unique, is_distinct, Registry, Request, Response, input_error, stale, blocked, unchanged,
  conflict, applied, committed, active_rows, is_ready, links_of, candidate, plan_updates,
  plan_blockers, has_blocker, apply_automatic_station_mappings,
}

module _ {ℓ} {A : Type ℓ} (beq : A → A → Bool) where
  length-unique : (xs : List A) → length (unique beq xs) ≤ length xs
  length-unique [] = omega arith
  length-unique (x ∷ xs) = ground (arith, length-unique xs)

  -- the first item does not come again, and the others are distinct
  distinct-cons :
      (x : A) (xs : List A)
      → is_distinct beq (x ∷ xs) ≡ true
      → (any (beq x) xs ≡ false) × (is_distinct beq xs ≡ true)
  distinct-cons x xs h = (ground (arith, h, length-unique xs), ground (arith, h, length-unique xs))

distinct-CodesOnce :
    (rows : List KricStation) → is_distinct code_beq (map provider_key rows) ≡ true → CodesOnce rows
distinct-CodesOnce [] h = tt
distinct-CodesOnce (r ∷ rows) h =
    let parts = distinct-cons code_beq (provider_key r) (map provider_key rows) h in
    (
      any-none (λ s. code_beq (provider_key r) (provider_key s)) rows (any-map rows ∙ parts.0),
      distinct-CodesOnce rows parts.1,
    )
  where
    any-map :
        (rs : List KricStation)
        → any (λ s. code_beq (provider_key r) (provider_key s)) rs
          ≡ any (code_beq (provider_key r)) (map provider_key rs)
    any-map [] = refl
    any-map (s ∷ rs) = ap (λ b. code_beq (provider_key r) (provider_key s) || b) (any-map rs)

absent_id :
    (n : ℕ) (ps : List RailStation)
    → any (λ i. n == i) (map (λ p. p.id) ps) ≡ false
    → count (λ p. p.id == n) ps ≡ 0
absent_id n [] h = refl
absent_id n (p ∷ ps) h = ground (arith, h, absent_id n ps)

distinct_ids :
    (n : ℕ) (places : List RailStation)
    → is_distinct (λ a b. a == b) (map (λ p. p.id) places) ≡ true
    → count (λ p. p.id == n) places ≤ 1
distinct_ids n [] h = omega arith
distinct_ids n (p ∷ places) h =
    let parts = distinct-cons (λ a b. a == b) p.id (map (λ p. p.id) places) h in
    elim (Bool-cases (p.id == n)) [
      | inl this ↦
          let gone = absent_id n places (
            ap (λ i. any (λ j. i == j) (map (λ p. p.id) places)) (sym ((==_iff p.id n).0 this))
            ∙ parts.0) in
          ground (arith, this, gone)
      | inr other ↦ ground (arith, other, distinct_ids n places parts.1)
    ]

nothing_blocks : (bs : List Blocker) → has_blocker bs ≡ false → bs ≡ []
nothing_blocks [] h = refl
nothing_blocks (b ∷ bs) h = cc

count-with_id :
    (g : KricStation → Option ℕ) (n : ℕ) (rows : List KricStation)
    → count (has_station n) (map (with_id g) rows) ≡ count (λ r. is_station (g r) n) rows
count-with_id g n [] = refl
count-with_id g n (r ∷ rows) = ground (arith, count-with_id g n rows)

module _ (nfkc : Text → Text) (enumerate : List CodeKey → List CodeKey)
    (order : CodeKey → CodeKey → Bool) (revision : Registry → Text) where
  -- a response is no conflict; where links were written, each active row has the place of its link, no place
  -- stands twice, and the manual links are as before
  abbrev pub IsClean : Registry → List KricStation → List RailStation → Response → Type 0
  IsClean registry codes places conflict = ⊥
  IsClean registry codes places (applied n rows after) =
      (rows
        ≡ map
            (with_id (final_id places (links_of nfkc enumerate order revision after codes places)))
            codes)
      × (((n : ℕ) → count (has_station n) rows ≤ 1)
          × (after.manual_mappings ≡ registry.manual_mappings))
  IsClean registry codes places _ = Unit

  relinked :
      (registry : Registry) (codes : List KricStation) (places : List RailStation)
      → ((n : ℕ) → count (has_station n) codes ≤ 1)
      → is_ready registry codes places ≡ true
      → has_blocker (plan_blockers nfkc enumerate order revision registry codes places) ≡ false
      → (n : ℕ)
      → IsClean registry codes places (
          committed n
            (candidate nfkc enumerate order revision registry codes places)
            (relink order (plan_updates nfkc enumerate order revision registry codes places) codes))
  unfolding is_ready
  relinked registry codes places unique_before ready free n =
      let next = candidate nfkc enumerate order revision registry codes places in
      let before = links_of nfkc enumerate order revision registry codes places in
      let after = links_of nfkc enumerate order revision next codes places in
      let codes_distinct : is_distinct code_beq (map provider_key (active_rows codes)) ≡ true =
        ground (arith, ready) in
      let ids_distinct : is_distinct (λ a b. a == b) (map (λ p. p.id) places) ≡ true =
        ground (arith, ready) in
      let once = distinct-CodesOnce (active_rows codes) codes_distinct in
      let ids : (n : ℕ) → count (λ p. p.id == n) places ≤ 1 =
        λ n. distinct_ids n places ids_distinct in
      let links =
        effective_station_mappings-once enumerate (active_rows codes) places next.automatic_mappings
          next.manual_mappings in
      let nothing = nothing_blocks (blockers places before after codes) free in
      subst (λ o. IsClean registry codes places (committed n next o))
        (sym (relink-linked order places before after codes once ids links unique_before nothing))
        (
          refl,
          (
            λ m.
                subst (λ c. c ≤ 1) (sym (count-with_id (final_id places after) m codes))
                  (final-once places after codes m once (ids m) links
                    (no_blockers places before after codes nothing) (unique_before m)),
            refl,
          ),
        )

  -- If the table holds no place twice, then applying automatic links ends without a conflict of the constraint,
  -- whatever is stored and asked for, and in whatever order a flush sends its updates. Where it writes links,
  -- every active row then has the place that the stored manual and the new automatic links give its code (none
  -- without a link), the other rows and fields are as before, no place stands twice, and the manual links stay.
  pub apply_automatic_station_mappings-IsClean :
      (request : Request) (registry : Registry) (codes : List KricStation)
      (places : List RailStation)
      → ((n : ℕ) → count (has_station n) codes ≤ 1)
      → IsClean registry codes places (
          apply_automatic_station_mappings nfkc enumerate order revision request registry codes
            places)
  unfolding apply_automatic_station_mappings
  apply_automatic_station_mappings-IsClean request registry codes places unique_before =
      let next = candidate nfkc enumerate order revision registry codes places in
      let P = IsClean registry codes places in
      let saved =
        committed (length (plan_updates nfkc enumerate order revision registry codes places)) next
          (relink order (plan_updates nfkc enumerate order revision registry codes places) codes) in
      let changed = if text_beq (revision registry) (revision next) then unchanged else saved in
      let free =
        if has_blocker (plan_blockers nfkc enumerate order revision registry codes places)
        then blocked
        else changed in
      let fresh =
        if not (text_beq request.expected_revision (revision registry))
          || not (text_beq request.candidate_revision (revision next))
        then stale
        else free in
      if-cases P (not (is_ready registry codes places)) {x = input_error} {y = fresh} (λ _. tt)
        λ ready.
          if-cases P
            (not (text_beq request.expected_revision (revision registry))
              || not (text_beq request.candidate_revision (revision next)))
            {x = stale} {y = free} (λ _. tt)
            λ _.
              if-cases P
                (has_blocker (plan_blockers nfkc enumerate order revision registry codes places))
                {x = blocked} {y = changed} (λ _. tt)
                λ open_plan.
                  if-cases P (text_beq (revision registry) (revision next)) {x = unchanged}
                    {y = saved} (λ _. tt)
                    λ _.
                      relinked registry codes places unique_before (ground (arith, ready)) open_plan
                        (length (plan_updates nfkc enumerate order revision registry codes places))
