-- ===== src/Backups/Storage/Chosen.antt =====
-- What the loop over the oldest backups collects, and what its deletions leave of a directory.
use kor_travel_transport.Prelude.{
  ℕ, ◌+◌, ◌≤◌, ◌≡◌, refl, sym, ap, ◌∙◌, ◌⊎◌, inl, inr, Bool, true, false, not, List, [], ◌∷◌, keep,
  count, All, arith, ◌||◌, if◌then◌else◌, if-cases, Bool-cases,
}
use kor_travel_transport.Prelude.Chars.{Text, text_beq, text_beq_sym, text_beq_self}
use kor_travel_transport.Backups.{
  BackupFileInfo, Directory, ok, is_backup_name, unlink_backup, remove,
}
use kor_travel_transport.Backups.Storage.{total_bytes, member, collect, unlink_all}
use kor_travel_transport.Backups.Storage.Sums.{total_by, keep-keep, keep-true, keep-cong}

-- is a file of this name among the chosen
abbrev pub hit : List BackupFileInfo → Text → Bool
hit [] name = false
hit (c ∷ cs) name = text_beq name c.filename || hit cs name

-- the bytes of a list whose names are among the chosen
abbrev pub weigh : List BackupFileInfo → List BackupFileInfo → ℕ
weigh cs is = total_by (λ i. if hit cs i.filename then i.size_bytes else 0) is

abbrev Fresh : Text → List BackupFileInfo → Type 0
Fresh name is = All (λ i. text_beq i.filename name ≡ false) is

-- no name stands twice
abbrev pub Distinct : List BackupFileInfo → Type 0
Distinct [] = Unit
Distinct (i ∷ is) = Fresh i.filename is × Distinct is

count-Fresh :
    (name : Text) (is : List BackupFileInfo)
    → count (λ i. text_beq i.filename name) is ≤ 0
    → Fresh name is
count-Fresh name [] h = tt
count-Fresh name (i ∷ is) h = elim (Bool-cases (text_beq i.filename name)) [
  | inl same ↦ absurd (ground (arith, same, h))
  | inr other ↦ (other, count-Fresh name is (ground (arith, other, h)))
]

pub count-Distinct :
    (is : List BackupFileInfo)
    → ((name : Text) → count (λ i. text_beq i.filename name) is ≤ 1)
    → Distinct is
count-Distinct [] h = tt
count-Distinct (i ∷ is) h = (
  count-Fresh i.filename is (ground (arith, h i.filename, text_beq_self i.filename)),
  count-Distinct is (λ name. ground (arith, h name)),
)

weigh-nil : (is : List BackupFileInfo) → weigh [] is ≡ 0
weigh-nil [] = refl
weigh-nil (i ∷ is) = omega (arith, weigh-nil is)

weigh-Fresh :
    (c : BackupFileInfo) (cs is : List BackupFileInfo)
    → Fresh c.filename is
    → weigh (c ∷ cs) is ≡ weigh cs is
weigh-Fresh c cs [] h = refl
weigh-Fresh c cs (i ∷ is) h = ground (arith, h.0, weigh-Fresh c cs is h.1)

hit-Fresh :
    (protected : List Text) (name : Text) (cs : List BackupFileInfo)
    → All (λ c. (text_beq c.filename name ≡ false) × (member protected c.filename ≡ false)) cs
    → hit cs name ≡ false
hit-Fresh protected name [] h = refl
hit-Fresh protected name (c ∷ cs) h =
    ground (arith, text_beq_sym name c.filename, h.0, hit-Fresh protected name cs h.1)

-- the bytes of the files that are not protected
abbrev pub free_bytes : List Text → List BackupFileInfo → ℕ
free_bytes protected is = total_by (λ i. if member protected i.filename then 0 else i.size_bytes) is

module _ (enough : ℕ → Bool) (protected : List Text) where
  -- what holds of all files holds of the collected ones, and none of these is protected
  pub collect-All :
      (P : BackupFileInfo → Type 0) (r : ℕ) (is : List BackupFileInfo)
      → All P is
      → All (λ i. P i × (member protected i.filename ≡ false)) (collect enough protected r is).0
  unfolding collect
  collect-All P r [] h = tt
  collect-All P r (i ∷ is) h = elim (Bool-cases (member protected i.filename)) [
    | inl kept ↦ rw kept (collect-All P r is h.1)
    | inr free ↦ elim (Bool-cases (enough (r + i.size_bytes))) [
      | inl last ↦ rw (free, last) ((h.0, free), tt)
      | inr more ↦ rw (free, more) ((h.0, free), collect-All P (r + i.size_bytes) is h.1)
    ]
  ]

  -- the loop counts the bytes that it collects
  pub collect-total_bytes :
      (r : ℕ) (is : List BackupFileInfo)
      → (collect enough protected r is).1 ≡ r + total_bytes (collect enough protected r is).0
  unfolding collect
  collect-total_bytes r [] = omega arith
  collect-total_bytes r (i ∷ is) =
      ground (arith, collect-total_bytes r is, collect-total_bytes (r + i.size_bytes) is)

  -- it ends with enough, or has collected all that is not protected
  pub collect_ends :
      (r : ℕ) (is : List BackupFileInfo)
      → (enough (collect enough protected r is).1 ≡ true)
        ⊎ ((collect enough protected r is).1 ≡ r + free_bytes protected is)
  unfolding collect
  collect_ends r [] = inr (omega arith)
  collect_ends r (i ∷ is) =
      if-cases
        (λ (res : List BackupFileInfo × ℕ).
          (enough res.1 ≡ true) ⊎ (res.1 ≡ r + free_bytes protected (i ∷ is)))
        (member protected i.filename)
        (λ kept. elim (collect_ends r is) [
          | inl done ↦ inl done
          | inr all ↦ inr (ground (arith, kept, all))
        ])
        λ free.
          if-cases
            (λ (res : List BackupFileInfo × ℕ).
              (enough res.1 ≡ true) ⊎ (res.1 ≡ r + free_bytes protected (i ∷ is)))
            (enough (r + i.size_bytes)) (λ last. inl last)
            λ more. elim (collect_ends (r + i.size_bytes) is) [
              | inl done ↦ inl done
              | inr all ↦ inr (ground (arith, free, all))
            ]

  -- each collected file is counted once in the list that it comes from
  pub weigh-collect :
      (r : ℕ) (is : List BackupFileInfo)
      → Distinct is
      → weigh (collect enough protected r is).0 is ≡ total_bytes (collect enough protected r is).0
  unfolding collect
  weigh-collect r [] h = refl
  weigh-collect r (i ∷ is) h =
      let self = text_beq_self i.filename in
      if-cases (λ (res : List BackupFileInfo × ℕ). weigh res.0 (i ∷ is) ≡ total_bytes res.0)
        (member protected i.filename)
        (λ kept.
          let apart =
            hit-Fresh protected i.filename (collect enough protected r is).0
              (collect-All (λ c. text_beq c.filename i.filename ≡ false) r is h.0) in
          ground (arith, apart, weigh-collect r is h.1))
        λ free.
          if-cases (λ (res : List BackupFileInfo × ℕ). weigh res.0 (i ∷ is) ≡ total_bytes res.0)
            (enough (r + i.size_bytes))
            (λ last. ground (arith, self, weigh-Fresh i [] is h.0, weigh-nil is))
            λ more.
              let cs = (collect enough protected (r + i.size_bytes) is).0 in
              let rest = weigh-collect (r + i.size_bytes) is h.1 in
              ground (arith, self, weigh-Fresh i cs is h.0, rest)

-- deleting files with the names of backups never raises, and takes away the files of these names
pub unlink_all-hit :
    (cs : List BackupFileInfo) (d : Directory)
    → All (λ c. is_backup_name c.filename ≡ true) cs
    → unlink_all cs d ≡ (ok tt, keep (λ e. not (hit cs e.info.filename)) d)
unfolding unlink_all unlink_backup
unlink_all-hit [] d h = ap (λ x. (ok tt, x)) (sym (keep-true d))
unlink_all-hit (c ∷ cs) d h = rw h.0 (
    unlink_all-hit cs (remove c.filename d) h.1
    ∙ ap (λ x. (ok tt, x))
        (keep-keep (λ e. not (hit cs e.info.filename))
            (λ e. not (text_beq e.info.filename c.filename)) d
          ∙ keep-cong _ _ (λ e. ground arith) d))
