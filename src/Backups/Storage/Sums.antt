-- ===== src/Backups/Storage/Sums.antt =====
-- Sums of sizes over a list, whatever its order.
use kor_travel_transport.Prelude.{
  ℕ, ◌+◌, ◌≤◌, ◌≡◌, refl, ap, Bool, true, List, [], ◌∷◌, ◌++◌, keep, count, All, arith, ◌&&◌,
  if◌then◌else◌, Bool-cases, inl, inr,
}
use kor_travel_transport.Prelude.Sort.{sorted, insert}
use kor_travel_transport.Backups.{BackupFileInfo}
use kor_travel_transport.Backups.Storage.{oldest_first, total_bytes}

module _ {ℓ} {A : Type ℓ} where
  abbrev pub total_by : (A → ℕ) → List A → ℕ
  total_by w [] = 0
  total_by w (x ∷ xs) = w x + total_by w xs

  pub total_by-keep :
      (p : A → Bool) (w : A → ℕ) (xs : List A)
      → total_by w (keep p xs) + total_by (λ x. if p x then 0 else w x) xs ≡ total_by w xs
  total_by-keep p w [] = refl
  total_by-keep p w (x ∷ xs) = ground (arith, total_by-keep p w xs)

  pub count-keep : (p q : A → Bool) (xs : List A) → count p (keep q xs) ≤ count p xs
  count-keep p q [] = omega arith
  count-keep p q (x ∷ xs) = ground (arith, count-keep p q xs)

  pub keep-keep : (p q : A → Bool) (xs : List A) → keep p (keep q xs) ≡ keep (λ x. q x && p x) xs
  keep-keep p q [] = refl
  keep-keep p q (x ∷ xs) = ground (arith, keep-keep p q xs)

  pub keep-true : (xs : List A) → keep (λ x. true) xs ≡ xs
  keep-true [] = refl
  keep-true (x ∷ xs) = ap (λ l. x ∷ l) (keep-true xs)

  pub keep-cong : (p q : A → Bool) → ((x : A) → p x ≡ q x) → (xs : List A) → keep p xs ≡ keep q xs
  keep-cong p q h [] = refl
  keep-cong p q h (x ∷ xs) = ground (arith, h x, keep-cong p q h xs)

  pub keep-All : (p : A → Bool) (xs : List A) → All (λ x. p x ≡ true) (keep p xs)
  keep-All p [] = tt
  keep-All p (x ∷ xs) = elim (Bool-cases (p x)) [
    | inl stays ↦ rw stays (stays, keep-All p xs)
    | inr goes ↦ rw goes (keep-All p xs)
  ]

module _ (w : BackupFileInfo → ℕ) where
  total_by-append :
      (xs ys : List BackupFileInfo) → total_by w (xs ++ ys) ≡ total_by w xs + total_by w ys
  total_by-append [] ys = omega arith
  total_by-append (x ∷ xs) ys = omega (arith, total_by-append xs ys)

  pub total_by-oldest_first :
      (xs : List BackupFileInfo) → total_by w (oldest_first xs) ≡ total_by w xs
  unfolding oldest_first
  total_by-oldest_first [] = refl
  total_by-oldest_first (x ∷ xs) =
      omega (arith, total_by-append (oldest_first xs) (x ∷ []), total_by-oldest_first xs)

  module _ (before : BackupFileInfo → BackupFileInfo → Bool) where
    total_by-insert :
        (x : BackupFileInfo) (xs : List BackupFileInfo)
        → total_by w (insert before x xs) ≡ w x + total_by w xs
    unfolding insert
    total_by-insert x [] = refl
    total_by-insert x (y ∷ ys) = ground (arith, total_by-insert x ys)

    pub total_by-sorted : (xs : List BackupFileInfo) → total_by w (sorted before xs) ≡ total_by w xs
    unfolding sorted
    total_by-sorted [] = refl
    total_by-sorted (x ∷ xs) =
        omega (arith, total_by-insert x (sorted before xs), total_by-sorted xs)

module _ (p : BackupFileInfo → Bool) where
  count-append : (xs ys : List BackupFileInfo) → count p (xs ++ ys) ≡ count p xs + count p ys
  count-append [] ys = omega arith
  count-append (x ∷ xs) ys = ground (arith, count-append xs ys)

  pub count-oldest_first : (xs : List BackupFileInfo) → count p (oldest_first xs) ≡ count p xs
  unfolding oldest_first
  count-oldest_first [] = refl
  count-oldest_first (x ∷ xs) =
      ground (arith, count-append (oldest_first xs) (x ∷ []), count-oldest_first xs)

All-snoc :
    (P : BackupFileInfo → Type 0) (xs : List BackupFileInfo) (x : BackupFileInfo)
    → All P xs
    → P x
    → All P (xs ++ x ∷ [])
All-snoc P [] x h px = (px, tt)
All-snoc P (y ∷ ys) x h px = (h.0, All-snoc P ys x h.1 px)

pub oldest_first-All :
    (P : BackupFileInfo → Type 0) (xs : List BackupFileInfo) → All P xs → All P (oldest_first xs)
unfolding oldest_first
oldest_first-All P [] h = tt
oldest_first-All P (x ∷ xs) h = All-snoc P (oldest_first xs) x (oldest_first-All P xs h.1) h.0

pub total_bytes-total_by :
    (xs : List BackupFileInfo) → total_bytes xs ≡ total_by (λ i. i.size_bytes) xs
total_bytes-total_by [] = refl
total_bytes-total_by (x ∷ xs) = omega (arith, total_bytes-total_by xs)
