-- ===== src/Fuel/Publish/Kept.antt =====
-- The points of the public generation stay as they were published.
use kor_travel_transport.Prelude.{
  ℕ, zero, suc, ◌≤◌, ◌≡◌, refl, sym, ap, ◌∙◌, Bool, true, false, not, Option, none, some, List, [],
  ◌∷◌, ◌++◌, keep, any, All, All-keep, ◌==◌, ==_iff, ◌&&◌, if-true, Bool-cases, inl, inr, arith,
}
use kor_travel_transport.Prelude.Chars.{Text}
use kor_travel_transport.Fuel.{Floats, Point}
use kor_travel_transport.Fuel.Points.{Rows}
use kor_travel_transport.Fuel.Points.Stamped.{located-IsStamped}
use kor_travel_transport.Fuel.Publish.{
  PublicState, is_generation, without_generation, is_reached, is_settled, finish, new_points,
  is_old, delete_first, prune_fuel_statistics,
}
use kor_travel_transport.Fuel.Publish.Steps.{
  System, Step, begin, publish, fail, prune, succeed, Steps, done, step, without, next_published,
}

-- the points of the public generation, which readers join with
abbrev pub public_points : Option PublicState → List Point → List Point
public_points none points = []
public_points (some s) points = keep (is_generation s.generated_at) points

abbrev pub is_public : Option PublicState → ℕ → Bool
is_public none stamp = false
is_public (some s) stamp = s.generated_at == stamp

-- the public generation, in the order of time; 0 before the first
abbrev pub reached : Option PublicState → ℕ
reached none = 0
reached (some s) = suc s.generated_at

-- the points of the public generation are those that the last switch wrote, and it is not being published
pub record IsPublic (F : Floats) (s : System F) : Type 0 where
  pub points_kept : public_points s.db.state s.db.points ≡ s.published
  pub unpublished : All (λ t. is_public s.db.state t ≡ false) s.publishing

without-kept :
    (o : Option PublicState) (stamp : ℕ) (ps : List Point)
    → is_public o stamp ≡ false
    → public_points o (without_generation stamp ps) ≡ public_points o ps
without-kept none stamp ps h = refl
without-kept (some s) stamp [] h = refl
without-kept (some s) stamp (p ∷ ps) h =
    let rest = without-kept (some s) stamp ps h in
    elim (Bool-cases (p.generated_at == stamp)) [
      | inl gone ↦
          let other : is_generation s.generated_at p ≡ false = ground (arith, gone, h) in
          rw (gone, other) rest
      | inr stays ↦ rw stays (elim (Bool-cases (is_generation s.generated_at p)) [
        | inl mine ↦ rw mine (ap (λ l. p ∷ l) rest)
        | inr other ↦ rw other rest
      ])
    ]

pub delete_first-kept :
    (o : Option PublicState) (skipped : Point → Bool) (n : ℕ) (ps : List Point)
    → public_points o (delete_first (λ p. is_old o p && not (skipped p)) n ps).0
      ≡ public_points o ps
delete_first-kept none skipped n ps = refl
delete_first-kept (some s) skipped n [] = refl
delete_first-kept (some s) skipped zero (p ∷ ps) = refl
delete_first-kept (some s) skipped (suc n) (p ∷ ps) =
    elim (Bool-cases (is_old (some s) p && not (skipped p))) [
      | inl gone ↦
          let other : is_generation s.generated_at p ≡ false = ground (arith, gone) in
          rw (gone, other) (delete_first-kept (some s) skipped n ps)
      | inr stays ↦
          let rest = delete_first-kept (some s) skipped (suc n) ps in
          rw stays (elim (Bool-cases (is_generation s.generated_at p)) [
            | inl mine ↦ rw mine (ap (λ l. p ∷ l) rest)
            | inr other ↦ rw other rest
          ])
    ]

keep-append : (f : Point → Bool) (xs ys : List Point) → keep f (xs ++ ys) ≡ keep f xs ++ keep f ys
keep-append f [] ys = refl
keep-append f (x ∷ xs) ys = elim (Bool-cases (f x)) [
  | inl mine ↦ rw mine (ap (λ l. x ∷ l) (keep-append f xs ys))
  | inr other ↦ rw other (keep-append f xs ys)
]

no_generation :
    (stamp : ℕ) (ps : List Point) → keep (is_generation stamp) (without_generation stamp ps) ≡ []
no_generation stamp [] = refl
no_generation stamp (p ∷ ps) = elim (Bool-cases (is_generation stamp p)) [
  | inl mine ↦ rw mine (no_generation stamp ps)
  | inr other ↦ rw other (rw other (no_generation stamp ps))
]

keep-all : (f : Point → Bool) (ps : List Point) → All (λ p. f p ≡ true) ps → keep f ps ≡ ps
keep-all f [] h = refl
keep-all f (p ∷ ps) h = if-true _ _ h.0 ∙ ap (λ l. p ∷ l) (keep-all f ps h.1)

not_public :
    (o : Option PublicState) (ts : List ℕ) (stamp : ℕ)
    → All (λ t. is_public o t ≡ false) ts
    → any (λ t. t == stamp) ts ≡ true
    → is_public o stamp ≡ false
not_public o [] stamp h there = cc
not_public o (t ∷ ts) stamp h there = elim (Bool-cases (t == stamp)) [
  | inl this ↦ ap (is_public o) (sym ((==_iff t stamp).0 this)) ∙ h.0
  | inr other ↦ not_public o ts stamp h.1 (ground (arith, other, there))
]

unreached :
    (o : Option PublicState) (stamp : ℕ) → is_reached stamp o ≡ false → is_public o stamp ≡ false
unreached none stamp h = refl
unreached (some s) stamp h = ground (arith, h)

others :
    (stamp : ℕ) (ts : List ℕ) → All (λ t. (stamp == t) ≡ false) (keep (λ s. not (s == stamp)) ts)
others stamp [] = tt
others stamp (t ∷ ts) = elim (Bool-cases (t == stamp)) [
  | inl same ↦ rw same (others stamp ts)
  | inr other ↦ rw other (ground (arith, other), others stamp ts)
]

reached_mono :
    (o : Option PublicState) (stamp : ℕ) → is_reached stamp o ≡ false → reached o ≤ suc stamp
reached_mono none stamp h = omega arith
reached_mono (some s) stamp h = ground (arith, h)

module _ (F : Floats) (key : List Text → Text) (day_of : ℕ → ℕ) where
  abbrev pub Moves : System F → System F → Type 0
  Moves s t = IsPublic F t × (reached s.db.state ≤ reached t.db.state)

  new-public :
      (stamp : ℕ) (rows : Rows) (ps : List Point)
      → keep
          (is_generation stamp)
          (without_generation stamp ps ++ new_points F key day_of stamp rows)
        ≡ new_points F key day_of stamp rows
  new-public stamp rows ps =
      keep-append (is_generation stamp) (without_generation stamp ps)
        (new_points F key day_of stamp rows)
      ∙ ap (λ l. l ++ keep (is_generation stamp) (new_points F key day_of stamp rows))
          (no_generation stamp ps)
      ∙ keep-all (is_generation stamp) (new_points F key day_of stamp rows)
          (located-IsStamped key stamp rows)

  publish-Moves :
      (s : System F) (stamp : ℕ) (rows : Rows)
      → any (λ t. t == stamp) s.publishing ≡ true
      → IsPublic F s
      → Moves s (record {
        db = finish F key day_of stamp rows s.db;
        publishing = without F key day_of stamp s.publishing;
        published = next_published F key day_of stamp rows s;
      })
  unfolding finish
  publish-Moves s stamp rows there h =
      let fresh = not_public s.db.state s.publishing stamp h.unpublished there in
      let left =
        All-keep (λ t. is_public s.db.state t ≡ false) (λ t. not (t == stamp)) s.publishing
          h.unpublished in
      elim (Bool-cases (is_settled F stamp s.db)) [
        | inl settled ↦ rw settled (
          record {
            points_kept = without-kept s.db.state stamp s.db.points fresh ∙ h.points_kept;
            unpublished = left;
          },
          omega arith,
        )
        | inr switched ↦ rw switched (
          record {
            points_kept = new-public stamp rows s.db.points;
            unpublished = others stamp s.publishing;
          },
          reached_mono s.db.state stamp (ground (arith, switched)),
        )
      ]

  step-Moves : (s t : System F) → Step F key day_of s t → IsPublic F s → Moves s t
  unfolding prune_fuel_statistics
  step-Moves _ _ (begin s stamp free open_now) h = (
    record {
      points_kept = h.points_kept;
      unpublished = (unreached s.db.state stamp (ground (arith, open_now)), h.unpublished);
    },
    omega arith,
  )
  step-Moves _ _ (publish s stamp rows there) h = publish-Moves s stamp rows there h
  step-Moves _ _ (fail s stamp) h = (
    record {
      points_kept = h.points_kept;
      unpublished =
          All-keep (λ t. is_public s.db.state t ≡ false) (λ t. not (t == stamp)) s.publishing
            h.unpublished;
    },
    omega arith,
  )
  step-Moves _ _ (prune s skipped) h = (
    record {
      points_kept = delete_first-kept s.db.state skipped 2000 s.db.points ∙ h.points_kept;
      unpublished = h.unpublished;
    },
    omega arith,
  )
  step-Moves _ _ (succeed s stamp) h =
      (record { points_kept = h.points_kept; unpublished = h.unpublished }, omega arith)

  -- From a state in which the points of the public generation are those that its switch wrote, and that generation
  -- is not being published: whatever publications, failures, clean-ups and collections of a source interleave, this
  -- still holds after them, for the generation that is public then, which is not an earlier one.
  pub Steps-Moves : (s t : System F) → Steps F key day_of s t → IsPublic F s → Moves s t
  Steps-Moves _ _ (done s) h = (h, omega arith)
  Steps-Moves _ _ (step s t u first rest) h =
      let one = step-Moves s t first h in
      let more = Steps-Moves t u rest one.0 in (more.0, omega (arith, one.1, more.1))
