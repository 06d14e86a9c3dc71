-- ===== src/TrafficCurrent/Members.antt =====
-- Which rows belong to the current set after an update, and what they hold.
use kor_travel_transport.Prelude.{
  ℕ, ◌≡◌, refl, sym, ap, ◌∙◌, subst, Bool, true, false, not, Option, none, some, ◌≤◌, ◌<◌, ◌⊎◌, any,
  ◌==◌, ◌&&◌, if-true, List, [], ◌∷◌, length, ◌||◌, if◌then◌else◌, if-false, if-cases, Bool-cases,
  Option-cases, inl, inr, arith,
}
use kor_travel_transport.Prelude.Chars.{Text, text_beq, text_eq, text_beq_iff}
use kor_travel_transport.Prelude.Dict.{Dict, get, put}
use kor_travel_transport.Prelude.Sort.{sorted, any-sorted}
use kor_travel_transport.TrafficCurrent.{
  CurrentState, Row, point_of, is_point, write_point, Snapshot, Tables, Run, Updated, value_error,
  updated, is_later, latest, write_points, is_late, state_of, key_first, committed,
  update_traffic_current,
}
use kor_travel_transport.TrafficCurrent.Written.{
  is_member, not_older, names, write_points-IsWritten,
}

names-put :
    (d : Dict Text ℕ) (j k : Text) (v : ℕ) → names k (put d j v) ≡ (text_beq j k || names k d)
unfolding put
names-put [] j k v = refl
names-put ((i, w) ∷ d) j k v = elim (Bool-cases (text_beq i j)) [
  | inl same ↦ rw same (ground (arith, ap (λ t. text_beq t k) ((text_beq_iff i j).0 same)))
  | inr other ↦ rw other (ground (arith, names-put d j k v))
]

get-names : (d : Dict Text ℕ) (k : Text) (v : ℕ) → get d k ≡ some v → names k d ≡ true
unfolding get
get-names [] k v h = cc
get-names ((j, w) ∷ d) k v h = elim (Bool-cases (text_beq j k)) [
  | inl same ↦ ground (arith, same)
  | inr other ↦ ground (arith, other, get-names d k v (sym (if-false _ _ other) ∙ h))
]

skipped-names :
    (d : Dict Text ℕ) (identity k : Text) (observed_at : ℕ)
    → is_later observed_at (get d identity) ≡ false
    → (text_beq identity k || names k d) ≡ names k d
skipped-names d identity k observed_at kept = elim (Option-cases (get d identity)) [
  | inl missing ↦ cc (ap (is_later observed_at) missing, kept)
  | inr (v, found) ↦
      let known = get-names d identity v found in
      elim (Bool-cases (text_beq identity k)) [
        | inl same ↦
            let here = subst (λ t. names t d ≡ true) ((text_beq_iff identity k).0 same) known in
            ground (arith, same, here)
        | inr other ↦ ground (arith, other)
      ]
]

latest-names :
    (d : Dict Text ℕ) (pairs : List (Text × ℕ)) (k : Text)
    → names k (latest d pairs) ≡ (names k d || names k pairs)
unfolding latest
latest-names d [] k = ground arith
latest-names d ((identity, observed_at) ∷ pairs) k =
    if-cases (λ l. names k l ≡ (names k d || names k ((identity, observed_at) ∷ pairs)))
      (is_later observed_at (get d identity)) {x = latest (put d identity observed_at) pairs}
      {y = latest d pairs}
      (λ _. ground (
        arith,
        latest-names (put d identity observed_at) pairs k,
        names-put d identity k observed_at,
      ))
      (λ kept. ground (arith, latest-names d pairs k, skipped-names d identity k observed_at kept))

-- the run that wrote the state, 0 before the first
abbrev pub attempt_of : Option CurrentState → ℕ
attempt_of none = 0
attempt_of (some state) = state.attempt_order

abbrev pub is_stored : List Snapshot → Text × ℕ → Bool
is_stored history p = any (λ s. text_beq s.identity_key p.0 && s.observed_at == p.1) history

-- An error comes from a run that is not running, or that is not late and has a point that is not stored. A run
-- that is late changes nothing. Any other has all its points stored, puts exactly the identities of this collection
-- in the current set, lets no row hold older values, and says how many members there are.
abbrev pub IsOutcome : ℕ → List Snapshot → Run → List (Text × ℕ) → ℕ → Tables → Updated → Type 0
IsOutcome g history run pairs confirmed_at before value_error =
    (run.is_running ≡ false)
    ⊎ ((attempt_of before.state ≤ run.id)
        × (any (λ p. not (is_stored history p)) (latest [] pairs) ≡ true))
IsOutcome g history run pairs confirmed_at before (updated false after) =
    (run.is_running ≡ true) × ((run.id < attempt_of before.state) × (after ≡ before))
IsOutcome g history run pairs confirmed_at before (updated true after) =
    (run.is_running ≡ true)
    × ((attempt_of before.state ≤ run.id)
        × ((any (λ p. not (is_stored history p)) (latest [] pairs) ≡ false)
            × (((k : Text)
                  → (is_member g (get after.rows k) ≡ names k pairs)
                    × (not_older (get before.rows k) (get after.rows k) ≡ true))
                × (after.state ≡ some (state_of g run confirmed_at (length (latest [] pairs)))))))

point_of-none :
    (history : List Snapshot) (identity : Text) (observed_at : ℕ)
    → point_of history identity observed_at ≡ none
    → is_stored history (identity, observed_at) ≡ false
point_of-none [] identity observed_at h = refl
point_of-none (s ∷ ss) identity observed_at h =
    elim (Bool-cases (is_point identity observed_at s)) [
      | inl this ↦ cc (sym (if-true _ _ this) ∙ h)
      | inr other ↦
          ground
            (arith, other, point_of-none ss identity observed_at (sym (if-false _ _ other) ∙ h))
    ]

point_of-some :
    (history : List Snapshot) (identity : Text) (observed_at : ℕ) (found : Snapshot)
    → point_of history identity observed_at ≡ some found
    → is_stored history (identity, observed_at) ≡ true
point_of-some [] identity observed_at found h = cc
point_of-some (s ∷ ss) identity observed_at found h =
    elim (Bool-cases (is_point identity observed_at s)) [
      | inl this ↦ ground (arith, this)
      | inr other ↦
          ground (
            arith,
            other,
            point_of-some ss identity observed_at found (sym (if-false _ _ other) ∙ h),
          )
    ]

is_late-order : (n : ℕ) (o : Option CurrentState) → is_late n o ≡ true → n < attempt_of o
is_late-order n none h = cc
is_late-order n (some state) h = ground (arith, h)

on_time-order : (n : ℕ) (o : Option CurrentState) → is_late n o ≡ false → attempt_of o ≤ n
on_time-order n none h = omega arith
on_time-order n (some state) h = ground (arith, h)

abbrev is_none {ℓ} : {A : Type ℓ} → Option A → Bool
is_none none = true
is_none (some a) = false

write_points-stored :
    (g : ℕ) (history : List Snapshot) (rows : Dict Text Row) (keys : List (Text × ℕ))
    → is_none (write_points g history rows keys) ≡ any (λ p. not (is_stored history p)) keys
unfolding write_points
write_points-stored g history rows [] = refl
write_points-stored g history rows ((identity, observed_at) ∷ keys) =
    elim (Option-cases (point_of history identity observed_at)) [
      | inl gone ↦
          subst
            (λ o.
              is_none (next o)
              ≡ any (λ p. not (is_stored history p)) ((identity, observed_at) ∷ keys))
            (sym gone) (ground (arith, point_of-none history identity observed_at gone))
      | inr (new, found) ↦
          subst
            (λ o.
              is_none (next o)
              ≡ any (λ p. not (is_stored history p)) ((identity, observed_at) ∷ keys))
            (sym found)
            (ground (
              arith,
              point_of-some history identity observed_at new found,
              write_points-stored g history (write_point g rows identity new) keys,
            ))
    ]
  where
    next : Option Snapshot → Option (Dict Text Row)
    next none = none
    next (some new) = write_points g history (write_point g rows identity new) keys

-- With a generation that no row has: an update of the current traffic ends with an error, and then the run is not
-- running, or is not before the one that wrote the state and has a point that is not stored; or, for a run before
-- that one, changes nothing; or, for any other run whose points are all stored, leaves, of all rows, exactly those
-- of the identities collected in the current set, none with older values than before, and the state of this run.
pub update_traffic_current-IsOutcome :
    (generation : ℕ) (history : List Snapshot) (run : Run) (pairs : List (Text × ℕ))
    (confirmed_at : ℕ) (tables : Tables)
    → ((k : Text) → is_member generation (get tables.rows k) ≡ false)
    → IsOutcome generation history run pairs confirmed_at tables
        (update_traffic_current generation history run pairs confirmed_at tables)
unfolding update_traffic_current
update_traffic_current-IsOutcome generation history run pairs confirmed_at tables fresh =
    let keys = sorted key_first (latest [] pairs) in
    let state = state_of generation run confirmed_at (length (latest [] pairs)) in
    let P = IsOutcome generation history run pairs confirmed_at tables in
    let saved = committed state (write_points generation history tables.rows keys) in
    let missing : Text × ℕ → Bool = λ p. not (is_stored history p) in
    let stored = write_points-stored generation history tables.rows keys in
    let same_missing = any-sorted key_first missing (latest [] pairs) in
    if-cases P (not run.is_running) {x = value_error}
      {y = if is_late run.id tables.state then updated false tables else saved}
      (λ stopped. inl (ground (arith, stopped)))
      λ runs.
        let running : run.is_running ≡ true = ground (arith, runs) in
        if-cases P (is_late run.id tables.state) {x = updated false tables} {y = saved}
          (λ late. (running, (is_late-order run.id tables.state late, refl)))
          λ timely.
            let in_order = on_time-order run.id tables.state timely in
            elim (Option-cases (write_points generation history tables.rows keys)) [
              | inl gone ↦
                  subst (λ o. P (committed state o)) (sym gone)
                    (inr (
                      in_order,
                      sym same_missing
                          ∙ sym (subst (λ o. is_none o ≡ any missing keys) gone stored),
                    ))
              | inr (after, done) ↦
                  subst (λ o. P (committed state o)) (sym done)
                    (
                      running,
                      (
                        in_order,
                        (
                          sym same_missing
                              ∙ sym (subst (λ o. is_none o ≡ any missing keys) done stored),
                          (
                            λ k.
                                let h =
                                  write_points-IsWritten generation history tables.rows after keys
                                    done k in
                                let same =
                                  any-sorted key_first (λ (p : Text × ℕ). text_beq p.0 k)
                                    (latest [] pairs) in
                                (ground (arith, h.0, same, fresh k, latest-names [] pairs k), h.1),
                            refl,
                          ),
                        ),
                      ),
                    )
            ]
