-- ===== src/TrafficCurrent/Written.antt =====
-- What the upserts of an update leave in the rows.
use kor_travel_transport.Prelude.{
  ℕ, ◌≡◌, refl, sym, ap, ◌∙◌, subst, Bool, true, false, Option, none, some, List, [], ◌∷◌, any, ltb,
  leb, ◌==◌, ◌&&◌, ◌||◌, if-true, if-false, Bool-cases, Option-cases, some-inj, inl, inr, arith,
}
use kor_travel_transport.Prelude.Chars.{Text, text_beq, text_eq, text_beq_iff}
use kor_travel_transport.Prelude.Dict.{Dict, get, get-put}
use kor_travel_transport.TrafficCurrent.{
  Snapshot, Row, is_newer, point_of, merged, write_point, write_points,
}

abbrev pub is_member : ℕ → Option Row → Bool
is_member generation none = false
is_member generation (some row) = row.generation == generation

-- by the time of the observation, then that of the collection, then the id
abbrev pub at_least : Snapshot → Snapshot → Bool
at_least a b =
    ltb b.observed_at a.observed_at
    || (a.observed_at == b.observed_at
        && (ltb b.collected_at a.collected_at
            || (a.collected_at == b.collected_at && leb b.id a.id)))

-- a row that was there is there, with values that are not older
abbrev pub not_older : Option Row → Option Row → Bool
not_older none after = true
not_older (some before) none = false
not_older (some before) (some after) = at_least after.snapshot before.snapshot

abbrev pub names : Text → List (Text × ℕ) → Bool
names k pairs = any (λ p. text_beq p.0 k) pairs

at_least_self : (s : Snapshot) → at_least s s ≡ true
at_least_self s = ground arith

not_older_self : (o : Option Row) → not_older o o ≡ true
not_older_self none = refl
not_older_self (some row) = at_least_self row.snapshot

at_least_trans :
    (a b c : Snapshot) → at_least b a ≡ true → at_least c b ≡ true → at_least c a ≡ true
at_least_trans a b c h k = ground (arith, h, k)

not_older_trans :
    (a b c : Option Row) → not_older a b ≡ true → not_older b c ≡ true → not_older a c ≡ true
not_older_trans none b c h k = refl
not_older_trans (some a) none c h k = cc
not_older_trans (some a) (some b) none h k = cc
not_older_trans (some a) (some b) (some c) h k = at_least_trans a.snapshot b.snapshot c.snapshot h k

merged-not_older :
    (g : ℕ) (new : Snapshot) (o : Option Row) → not_older o (some (merged g new o)) ≡ true
merged-not_older g new none = refl
merged-not_older g new (some row) = elim (Bool-cases (is_newer new row.snapshot)) [
  | inl later ↦ rw later (ground (arith, later))
  | inr earlier ↦ rw earlier (at_least_self row.snapshot)
]

merged-is_member :
    (g : ℕ) (new : Snapshot) (o : Option Row) → is_member g (some (merged g new o)) ≡ true
merged-is_member g new none = ground arith
merged-is_member g new (some row) = ground arith

-- after some points: the rows with their identities have joined, and no row is older
abbrev pub IsWritten : ℕ → Dict Text Row → List (Text × ℕ) → Dict Text Row → Type 0
IsWritten g before keys after =
    (k : Text)
    → (is_member g (get after k) ≡ (is_member g (get before k) || names k keys))
      × (not_older (get before k) (get after k) ≡ true)

write_point-IsWritten :
    (g : ℕ) (rows : Dict Text Row) (identity : Text) (observed_at : ℕ) (new : Snapshot)
    → IsWritten g rows ((identity, observed_at) ∷ []) (write_point g rows identity new)
write_point-IsWritten g rows identity observed_at new k =
    let found = get-put rows identity k (merged g new (get rows identity)) in
    elim (Bool-cases (text_beq identity k)) [
      | inl same ↦
          let e = (text_beq_iff identity k).0 same in
          let here = found ∙ if-true _ _ same in
          (
            ap (is_member g) here
                ∙ merged-is_member g new (get rows identity)
                ∙ sym (joined (get rows k) same),
            subst (λ o. not_older o (get (write_point g rows identity new) k) ≡ true)
                (ap (get rows) e)
                (ap (not_older (get rows identity)) here
                  ∙ merged-not_older g new (get rows identity)),
          )
      | inr other ↦
          let there = found ∙ if-false _ _ other in
          (
            ap (is_member g) there ∙ sym (apart (get rows k) other),
            ap (not_older (get rows k)) there ∙ not_older_self (get rows k),
          )
    ]
  where
    joined :
        (o : Option Row)
        → text_beq identity k ≡ true
        → (is_member g o || names k ((identity, observed_at) ∷ [])) ≡ true
    joined o h = ground (arith, h)

    apart :
        (o : Option Row)
        → text_beq identity k ≡ false
        → (is_member g o || names k ((identity, observed_at) ∷ [])) ≡ is_member g o
    apart o h = ground (arith, h)

pub write_points-IsWritten :
    (g : ℕ) (history : List Snapshot) (rows after : Dict Text Row) (keys : List (Text × ℕ))
    → write_points g history rows keys ≡ some after
    → IsWritten g rows keys after
unfolding write_points
write_points-IsWritten g history rows after [] e k =
    let same : rows ≡ after = some-inj e in
    (
      ap (λ r. is_member g (get r k)) (sym same) ∙ ground arith,
      subst (λ r. not_older (get rows k) (get r k) ≡ true) same (not_older_self (get rows k)),
    )
write_points-IsWritten g history rows after ((identity, observed_at) ∷ keys) e k =
    elim (Option-cases (point_of history identity observed_at)) [
      | inl missing ↦ cc (
          subst
            (λ (o : Option Snapshot).
              (elim o as (λ _. Option (Dict Text Row)) [
                | none ↦ none
                | some point ↦ write_points g history (write_point g rows identity point) keys
              ])
              ≡ some after)
            missing e)
      | inr (new, found) ↦
          let e' : write_points g history (write_point g rows identity new) keys ≡ some after =
            subst
              (λ (o : Option Snapshot).
                (elim o as (λ _. Option (Dict Text Row)) [
                  | none ↦ none
                  | some point ↦ write_points g history (write_point g rows identity point) keys
                ])
                ≡ some after)
              found e in
          let one = write_point-IsWritten g rows identity observed_at new k in
          let more =
            write_points-IsWritten g history (write_point g rows identity new) after keys e' k in
          (
            ground (arith, one.0, more.0),
            not_older_trans (get rows k) (get (write_point g rows identity new) k) (get after k)
                one.1 more.1,
          )
    ]
