-- ===== src/Fuel/Publish/Cleaned.antt =====
-- What the loop of a clean-up leaves of the earlier generations.
use kor_travel_transport.Prelude.{
  ℕ, zero, suc, ◌+◌, ◌*◌, ◌<◌, ◌≡◌, refl, ◌∙◌, Bool, true, false, not, List, [], ◌∷◌, any, length,
  All, ltb, leb, ◌&&◌, ◌||◌, if◌then◌else◌, if-cases, Bool-cases, inl, inr, arith,
}
use kor_travel_transport.Fuel.{Floats, Point}
use kor_travel_transport.Fuel.Publish.{
  Db, Round, is_old, delete_first, prune_fuel_statistics, cleanup_fuel_statistics,
}
use kor_travel_transport.Fuel.Publish.Kept.{public_points, delete_first-kept}

module _ (q : Point → Bool) where
  length-delete_first :
      (n : ℕ) (ps : List Point)
      → length (delete_first q n ps).0 + (delete_first q n ps).1 ≡ length ps
  length-delete_first n [] = omega arith
  length-delete_first zero (p ∷ ps) = omega arith
  length-delete_first (suc n) (p ∷ ps) = elim (Bool-cases (q p)) [
    | inl gone ↦ rw gone (omega (arith, length-delete_first n ps))
    | inr stays ↦ rw stays (omega (arith, length-delete_first (suc n) ps))
  ]

  -- where fewer than `n` were deleted, none is left
  delete_first-all :
      (n : ℕ) (ps : List Point)
      → (delete_first q n ps).1 < n
      → any q (delete_first q n ps).0 ≡ false
  delete_first-all n [] h = refl
  delete_first-all zero (p ∷ ps) h = absurd (omega (arith, h))
  delete_first-all (suc n) (p ∷ ps) h = elim (Bool-cases (q p)) [
    | inl gone ↦ rw gone (delete_first-all n ps (ground (arith, gone, h)))
    | inr stays ↦
        rw stays (ground (arith, stays, delete_first-all (suc n) ps (ground (arith, stays, h))))
  ]

any-stronger :
    (q r : Point → Bool)
    → ((p : Point) → q p ≡ true → r p ≡ true)
    → (ps : List Point) → any r ps ≡ false
    → any q ps ≡ false
any-stronger q r h [] none = refl
any-stronger q r h (p ∷ ps) none = elim (Bool-cases (q p)) [
  | inl holds ↦ absurd (ground (arith, none, h p holds))
  | inr fails ↦ ground (arith, fails, any-stronger q r h ps (ground (arith, none)))
]

-- a point that no round found locked
abbrev pub is_unlocked : List Round → Point → Bool
is_unlocked rounds p = not (any (λ (r : Round). r.skipped p) rounds)

module _ (F : Floats) where
  -- every point of an earlier generation that is left was locked in some round, and the public points are as before
  abbrev pub IsCleaned : List Round → Db F → Db F → Type 0
  IsCleaned rounds before after =
      (any (λ p. is_old before.state p && is_unlocked rounds p) after.points ≡ false)
      × (public_points before.state after.points ≡ public_points before.state before.points)

  -- If the rounds start before the deadline, the database does not raise, and there are so many rounds that 2000
  -- points in each are more than there are: the clean-up leaves no point of an earlier generation but one that
  -- another transaction had locked in some round, and deletes no point of the public generation.
  pub cleanup_fuel_statistics-IsCleaned :
      (deadline : ℕ) (rounds : List Round) (db : Db F)
      → All (λ r. (leb deadline r.clock ≡ false) × (r.fails ≡ false)) rounds
      → length db.points < 2000 * length rounds
      → IsCleaned rounds db (cleanup_fuel_statistics F deadline rounds db)
  unfolding cleanup_fuel_statistics prune_fuel_statistics
  cleanup_fuel_statistics-IsCleaned deadline [] db early enough = absurd (omega (arith, enough))
  cleanup_fuel_statistics-IsCleaned deadline (r ∷ rounds) db early enough =
      let q : Point → Bool = λ p. is_old db.state p && not (r.skipped p) in
      let left : Point → Bool = λ p. is_old db.state p && is_unlocked (r ∷ rounds) p in
      let deleted = delete_first q 2000 db.points in
      let pruned = record db { points = deleted.0 } in
      let kept = delete_first-kept db.state r.skipped 2000 db.points in
      let rest = cleanup_fuel_statistics F deadline rounds pruned in
      if-cases (IsCleaned (r ∷ rounds) db) (leb deadline r.clock || r.fails) {x = db}
        {y = if ltb deleted.1 2000 then pruned else rest}
        (λ late. absurd (ground (arith, late, early.0.0, early.0.1)))
        (λ _.
          if-cases (IsCleaned (r ∷ rounds) db) (ltb deleted.1 2000) {x = pruned} {y = rest}
            (λ few. (
              any-stronger left q (λ p h. ground (arith, h)) deleted.0
                  (delete_first-all q 2000 db.points (ground (arith, few))),
              kept,
            ))
            (λ many.
              let fewer : length deleted.0 < 2000 * length rounds =
                ground (arith, many, enough, length-delete_first q 2000 db.points) in
              let next = cleanup_fuel_statistics-IsCleaned deadline rounds pruned early.1 fewer in
              (
                any-stronger left (λ p. is_old db.state p && is_unlocked rounds p)
                    (λ p h. ground (arith, h)) rest.points next.0,
                next.1 ∙ kept,
              )))
