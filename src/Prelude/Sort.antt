-- ===== src/Prelude/Sort.antt =====
-- Python's `sorted`: stable, by a test whether one item comes strictly before another.
use mathlib.Core.Path.{◌≡◌, refl, ap, ◌∙◌}
use native.Mathlib.Omega.{arith}
use mathlib.Core.Logic.{inl, inr}
use Prim.Native.Nat.{suc}
use mathlib.Core.Bool.{Bool, true, false, ◌||◌}
use mathlib.Core.List.{List, [], ◌∷◌, Perm}
use mathlib.Core.List.Perm
use kor_travel_transport.Prelude.Tests.{if◌then◌else◌, Bool-cases}
use kor_travel_transport.Prelude.Lists.{All, any, count}

module _ {ℓ} {A : Type ℓ} (before : A → A → Bool) where
  -- an item goes in front of its equals, which come later in the given list
  unfoldable pub insert : A → List A → List A
  insert x [] = x ∷ []
  insert x (y ∷ ys) = if before y x then y ∷ insert x ys else x ∷ y ∷ ys

  unfoldable pub sorted : List A → List A
  unfolding insert
  sorted [] = []
  sorted (x ∷ xs) = insert x (sorted xs)

  -- no item stands in front of one that comes before it
  abbrev pub IsSorted : List A → Type 0
  IsSorted [] = Unit
  IsSorted (x ∷ []) = Unit
  IsSorted (x ∷ y ∷ ys) = (before y x ≡ false) × IsSorted (y ∷ ys)

  pub insert-perm : (x : A) (xs : List A) → Perm (insert x xs) (x ∷ xs)
  unfolding insert
  insert-perm x [] = Perm.refl (x ∷ [])
  insert-perm x (y ∷ ys) = elim (Bool-cases (before y x)) [
    | inl first ↦ rw first (Perm.trans (Perm.cons y (insert-perm x ys)) (Perm.swap x y ys))
    | inr later ↦ rw later (Perm.refl (x ∷ y ∷ ys))
  ]

  pub sorted-perm : (xs : List A) → Perm (sorted xs) xs
  unfolding sorted
  sorted-perm [] = Perm.refl []
  sorted-perm (x ∷ xs) = Perm.trans (insert-perm x (sorted xs)) (Perm.cons x (sorted-perm xs))

  insert-IsSorted :
      ((x y : A) → before x y ≡ true → before y x ≡ false)
      → (x : A) (xs : List A) → IsSorted xs
      → IsSorted (insert x xs)
  unfolding insert
  insert-IsSorted asym x [] h = tt
  insert-IsSorted asym x (y ∷ []) h = elim (Bool-cases (before y x)) [
    | inl first ↦ rw first (asym y x first, tt)
    | inr later ↦ rw later (later, tt)
  ]
  insert-IsSorted asym x (y ∷ z ∷ zs) h = elim (Bool-cases (before y x)) [
    | inl first ↦ elim (Bool-cases (before z x)) [
      | inl second ↦
          let rest = insert-IsSorted asym x (z ∷ zs) h.1 in
          rw (first, second) (h.0, rw second at rest)
      | inr last ↦ rw (first, last) (asym y x first, (last, h.1))
    ]
    | inr later ↦ rw later (later, h)
  ]

  pub sorted-IsSorted :
      ((x y : A) → before x y ≡ true → before y x ≡ false) → (xs : List A) → IsSorted (sorted xs)
  unfolding sorted
  sorted-IsSorted asym [] = tt
  sorted-IsSorted asym (x ∷ xs) = insert-IsSorted asym x (sorted xs) (sorted-IsSorted asym xs)

  insert-All : (P : A → Type 0) (x : A) (xs : List A) → P x → All P xs → All P (insert x xs)
  unfolding insert
  insert-All P x [] px h = (px, tt)
  insert-All P x (y ∷ ys) px h = elim (Bool-cases (before y x)) [
    | inl first ↦ rw first (h.0, insert-All P x ys px h.1)
    | inr later ↦ rw later (px, h)
  ]

  pub sorted-All : (P : A → Type 0) (xs : List A) → All P xs → All P (sorted xs)
  unfolding sorted
  sorted-All P [] h = tt
  sorted-All P (x ∷ xs) h = insert-All P x (sorted xs) h.0 (sorted-All P xs h.1)

  pub count-insert : (p : A → Bool) (x : A) (xs : List A) → count p (insert x xs) ≡ count p (x ∷ xs)
  unfolding insert
  count-insert p x [] = refl
  count-insert p x (y ∷ ys) = ground (arith, count-insert p x ys)

  pub count-sorted : (p : A → Bool) (xs : List A) → count p (sorted xs) ≡ count p xs
  unfolding sorted
  count-sorted p [] = refl
  count-sorted p (x ∷ xs) =
      count-insert p x (sorted xs) ∙ ap (λ n. if p x then suc n else n) (count-sorted p xs)

  any-insert : (p : A → Bool) (x : A) (xs : List A) → any p (insert x xs) ≡ (p x || any p xs)
  unfolding insert
  any-insert p x [] = refl
  any-insert p x (y ∷ ys) = ground (arith, any-insert p x ys)

  pub any-sorted : (p : A → Bool) (xs : List A) → any p (sorted xs) ≡ any p xs
  unfolding sorted
  any-sorted p [] = refl
  any-sorted p (x ∷ xs) = any-insert p x (sorted xs) ∙ ap (λ b. p x || b) (any-sorted p xs)

  -- no item of the list comes before the given one
  abbrev pub Least : A → List A → Type 0
  Least r [] = Unit
  Least r (x ∷ xs) = (before x r ≡ false) × Least r xs

  -- what the first item of a sorted list is to a list
  abbrev pub IsFirst : List A → List A → Type 0
  IsFirst [] [] = Unit
  IsFirst [] (x ∷ xs) = ⊥
  IsFirst (r ∷ rs) xs = Least r xs

  module _ (irrefl : (x : A) → before x x ≡ false)
      (asym : (x y : A) → before x y ≡ true → before y x ≡ false)
      (trans : (x y z : A) → before x y ≡ false → before y z ≡ false → before x z ≡ false) where
    Least-trans : (y z : A) (xs : List A) → before y z ≡ false → Least y xs → Least z xs
    Least-trans y z [] h l = tt
    Least-trans y z (x ∷ xs) h l = (trans x y z l.0 h, Least-trans y z xs h l.1)

    insert-IsFirst : (x : A) (ys xs : List A) → IsFirst ys xs → IsFirst (insert x ys) (x ∷ xs)
    unfolding insert
    insert-IsFirst x [] [] h = (irrefl x, tt)
    insert-IsFirst x [] (z ∷ zs) h = absurd h
    insert-IsFirst x (y ∷ ys) xs h = elim (Bool-cases (before y x)) [
      | inl first ↦ rw first (asym y x first, h)
      | inr later ↦ rw later (irrefl x, Least-trans y x xs later h)
    ]

    pub sorted-IsFirst : (xs : List A) → IsFirst (sorted xs) xs
    unfolding sorted
    sorted-IsFirst [] = tt
    sorted-IsFirst (x ∷ xs) = insert-IsFirst x (sorted xs) xs (sorted-IsFirst xs)
