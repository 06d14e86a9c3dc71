-- ===== src/SpecialDays/Totals.antt =====
-- The totals of the lots at one time.
use kor_travel_transport.Prelude.{
  ℕ, ◌≡◌, refl, ap, ◌∙◌, List, [], ◌∷◌, ◌==◌, ==_iff, if◌then◌else◌, Bool-cases, inl, inr, ℤ, pos,
  ◌+ℤ◌,
}
use kor_travel_transport.Prelude.Dict.{Dict, get, put, get-put, nat_eq, NodupKeys, put-NodupKeys}
use kor_travel_transport.Analytics.{Snapshot}
use kor_travel_transport.Series.{observed}
use kor_travel_transport.SpecialDays.{or_zero, add_totals}

-- the free spaces of the rows of one time, added up in their order
abbrev pub total_at : ℕ → ℤ → List Snapshot → ℤ
total_at t sum [] = sum
total_at t sum (s ∷ ss) = total_at t (if observed s == t then sum +ℤ s.available_spaces else sum) ss

get-add_totals :
    (t : ℕ) (totals : Dict ℕ ℤ) (ss : List Snapshot)
    → or_zero (get (add_totals totals ss) t) ≡ total_at t (or_zero (get totals t)) ss
unfolding add_totals
get-add_totals t totals [] = refl
get-add_totals t totals (s ∷ ss) =
    let added = or_zero (get totals (observed s)) +ℤ s.available_spaces in
    get-add_totals t (put totals (observed s) added) ss
    ∙ ap (λ o. total_at t (or_zero o) ss) (get-put totals (observed s) t added)
    ∙ elim (Bool-cases (observed s == t)) [
      | inl same ↦ rw same (
          ap (λ u. total_at t (or_zero (get totals u) +ℤ s.available_spaces) ss)
            ((==_iff (observed s) t).0 same))
      | inr other ↦ rw other refl
    ]

add_totals-NodupKeys :
    (totals : Dict ℕ ℤ) (ss : List Snapshot) → NodupKeys totals → NodupKeys (add_totals totals ss)
unfolding add_totals
add_totals-NodupKeys totals [] h = h
add_totals-NodupKeys totals (s ∷ ss) h =
    add_totals-NodupKeys
      (put totals (observed s) (or_zero (get totals (observed s)) +ℤ s.available_spaces)) ss
      (put-NodupKeys totals (observed s) (or_zero (get totals (observed s)) +ℤ s.available_spaces)
        h)

-- The totals of the rows of an hour have one entry for each time, and it is the sum of the free spaces
-- of all rows of that time.
pub add_totals-sum :
    (t : ℕ) (ss : List Snapshot)
    → (or_zero (get (add_totals [] ss) t) ≡ total_at t (pos 0) ss) × NodupKeys (add_totals [] ss)
unfolding get
add_totals-sum t ss = (get-add_totals t [] ss, add_totals-NodupKeys [] ss tt)
