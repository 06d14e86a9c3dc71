-- ===== src/Stations/Plan/Final.antt =====
-- The place that each row is to have, and that no two rows are to have the same one.
use kor_travel_transport.Prelude.{
  ℕ, ◌+◌, ◌≤◌, ◌≡◌, refl, sym, ◌∙◌, subst, Bool, true, false, not, Option, some, List, [], ◌∷◌,
  ◌++◌, map, keep, any, count, arith, ◌==◌, ◌&&◌, if◌then◌else◌, if-true, if-false, Bool-cases, inl,
  inr,
}
use kor_travel_transport.Prelude.Chars.{Text}
use kor_travel_transport.Prelude.Sort.{sorted}
use kor_travel_transport.Stations.{KricStation, RailStation, CodeKey, provider_key}
use kor_travel_transport.Stations.Effective.{Link, Links}
use kor_travel_transport.Stations.Effective.Once.{links_to}
use kor_travel_transport.Stations.Automatic.Found.{CodesOnce}
use kor_travel_transport.Stations.Plan.{
  inactive_target_occupied, key_before, is_station, target_id, is_target, is_occupied, occupied,
  mismatches, manual_changes, blockers, has_station,
}
use kor_travel_transport.Stations.Plan.Updates.{same_station_eq, to}
use kor_travel_transport.Stations.Plan.Targets.{leads, entries_once, rows_lead, count-keep}

-- the place that a row is to have: an active one its link, another what it has
abbrev pub final_id : List RailStation → Links → KricStation → Option ℕ
final_id places after r =
    if r.active then target_id places after (provider_key r) else r.rail_station_id

module _ (places : List RailStation) (after : Links) (codes : List KricStation) (n : ℕ) where
  abbrev active_n : KricStation → Bool
  active_n r = r.active && is_station (to places after r) n

  abbrev inactive_n : KricStation → Bool
  inactive_n r = not r.active && has_station n r

  final-count :
      (rows : List KricStation)
      → count (λ r. is_station (final_id places after r) n) rows
        ≡ count active_n rows + count inactive_n rows
  final-count [] = omega arith
  final-count (r ∷ rows) = elim (Bool-cases r.active) [
    | inl active ↦ rw active (ground (arith, final-count rows))
    | inr inactive ↦ rw inactive (ground (arith, final-count rows))
  ]

  inactive-count : (rows : List KricStation) → count inactive_n rows ≤ count (has_station n) rows
  inactive-count [] = omega arith
  inactive-count (r ∷ rows) = ground (arith, inactive-count rows)

  no_link :
      (es : Links)
      → any (λ e. leads places n e.1) es ≡ false
      → count (λ (e : CodeKey × Link). leads places n e.1) es ≡ 0
  no_link [] h = refl
  no_link (e ∷ es) h = ground (arith, h, no_link es (ground (arith, h)))

  free-inactive :
      is_target places after (some n) ≡ true
      → (rows : List KricStation) → any (is_occupied places after) rows ≡ false
      → count inactive_n rows ≡ 0
  free-inactive taken [] h = refl
  free-inactive taken (r ∷ rows) h =
      let rest = free-inactive taken rows (ground (arith, h)) in
      elim (Bool-cases (inactive_n r)) [
        | inl this ↦
            let here : has_station n r ≡ true = ground (arith, this) in
            let same : r.rail_station_id ≡ some n = holds r.rail_station_id here in
            let occupies : is_occupied places after r ≡ true =
              rw same (ground (arith, this, taken)) in
            absurd (ground (arith, h, occupies))
        | inr other ↦ ground (arith, other, rest)
      ]
    where
      holds : (o : Option ℕ) → is_station o n ≡ true → o ≡ some n
      holds o h = sym (same_station_eq (some n) o h)

  -- with no active code twice, the active rows take a place no more often than it is linked
  active-count :
      CodesOnce (keep (λ r. r.active) codes)
      → count active_n codes ≤ count (λ (e : CodeKey × Link). leads places n e.1) after
  unfolding target_id
  active-count once =
      let rows = keep (λ r. r.active) codes in
      let same : count (λ r. is_station (to places after r) n) rows ≡ count active_n codes =
        count-keep (λ r. r.active) (λ r. is_station (to places after r) n) codes in
      subst (λ m. m ≤ count (λ (e : CodeKey × Link). leads places n e.1) after) same
        (rows_lead places n after rows once)

  pub final-once :
      CodesOnce (keep (λ r. r.active) codes)
      → count (λ p. p.id == n) places ≤ 1
      → ((t : Text) → links_to t after ≤ 1)
      → any (is_occupied places after) codes ≡ false
      → count (has_station n) codes ≤ 1
      → count (λ r. is_station (final_id places after r) n) codes ≤ 1
  final-once once ids links free unique =
      let total = final-count codes in
      let active = active-count once in
      let single = entries_once places n ids after links in
      elim (Bool-cases (is_target places after (some n))) [
        | inl taken ↦ omega (arith, total, active, single, free-inactive taken codes free)
        | inr untaken ↦
            omega (arith, total, active, no_link after untaken, inactive-count codes, unique)
      ]

module _ {ℓ} {A : Type ℓ} where
  front-none : (xs ys : List A) → xs ++ ys ≡ [] → xs ≡ []
  front-none [] ys h = refl
  front-none (x ∷ xs) ys h = cc

  back-none : (xs ys : List A) → xs ++ ys ≡ [] → ys ≡ []
  back-none [] ys h = h
  back-none (x ∷ xs) ys h = cc

  map-none {κ} : {B : Type κ} (f : A → B) (xs : List A) → map f xs ≡ [] → xs ≡ []
  map-none f [] h = refl
  map-none f (x ∷ xs) h = cc

  keep-none : (p : A → Bool) (xs : List A) → keep p xs ≡ [] → any p xs ≡ false
  keep-none p [] h = refl
  keep-none p (x ∷ xs) h = elim (Bool-cases (p x)) [
    | inl stays ↦ cc (sym (if-true _ _ stays) ∙ h)
    | inr goes ↦ ground (arith, goes, keep-none p xs (sym (if-false _ _ goes) ∙ h))
  ]

pub no_blockers :
    (places : List RailStation) (before after : Links) (codes : List KricStation)
    → blockers places before after codes ≡ []
    → any (is_occupied places after) codes ≡ false
unfolding blockers occupied
no_blockers places before after codes h =
    let rest =
      back-none (mismatches places before (sorted key_before (keep (λ r. r.active) codes)))
        (occupied places after codes ++ manual_changes before after) h in
    keep-none (is_occupied places after) codes (
      map-none (λ row. inactive_target_occupied (provider_key row))
        (keep (is_occupied places after) codes)
        (front-none (occupied places after codes) (manual_changes before after) rest))
