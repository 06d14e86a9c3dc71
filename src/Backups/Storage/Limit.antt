-- ===== src/Backups/Storage/Limit.antt =====
-- The storage limit: what the two calls that free space end in.
use kor_travel_transport.Prelude.{
  ℕ, ◌+◌, ◌≤◌, ◌<◌, ◌≡◌, refl, sym, ap, ◌∙◌, inl, inr, Bool, true, false, not, List, [], ◌∷◌, map,
  keep, count, All, All-imp, arith, ltb, leb, ◌||◌, if◌then◌else◌, Bool-cases, pos, if-true,
  if-false, subst, leb_ℤ,
}
use kor_travel_transport.Prelude.Chars.{Text, text_beq, text_beq_iff}
use kor_travel_transport.Prelude.Sort.{count-sorted, sorted-All}
use kor_travel_transport.Backups.{
  BackupFileInfo, Entry, Directory, Result, ok, value_error, runtime_error, file_not_found,
  is_backup_name, cleanup_staging_backups, is_stale, Action, ◌>>◌, raise_if,
}
use kor_travel_transport.Backups.Storage.{
  made_later, total_bytes, member, collect, unlink_all, is_listed, info_of, listed, list_backups,
  oldest_first, enforce_storage_limit, make_room_for_upload,
}
use kor_travel_transport.Backups.Storage.Sums.{
  total_by, total_by-keep, keep-keep, keep-cong, keep-All, count-keep, total_by-sorted,
  total_by-oldest_first, count-oldest_first, oldest_first-All, total_bytes-total_by,
}
use kor_travel_transport.Backups.Storage.Chosen.{
  hit, Distinct, count-Distinct, free_bytes, collect-All, collect-total_bytes, collect_ends,
  weigh-collect, unlink_all-hit,
}

-- no name stands twice in a directory
abbrev pub NamesOnce : Directory → Type 0
NamesOnce d = (name : Text) → count (λ e. text_beq e.info.filename name) d ≤ 1

-- the directory without the stale staging files
abbrev pub clean : ℕ → Directory → Directory
clean now d = keep (λ e. not (is_stale now e)) d

-- the bytes of the backups, and of the protected ones
abbrev pub bytes : Directory → ℕ
bytes d = total_bytes (listed d)

abbrev pub protected_bytes : List Text → Directory → ℕ
protected_bytes protected d =
    total_by (λ i. if member protected i.filename then i.size_bytes else 0) (listed d)

-- the files that the limit never touches, by their names
abbrev pub stays : List Text → Entry → Bool
stays protected e = member protected e.info.filename || not (is_backup_name e.info.filename)

total_by-map :
    (w : BackupFileInfo → ℕ) (d : Directory)
    → total_by w (map info_of (keep is_listed d))
      ≡ total_by (λ e. if is_listed e then w e.info else 0) d
total_by-map w [] = refl
total_by-map w (e ∷ d) = ground (arith, total_by-map w d)

total_by-listed :
    (w : BackupFileInfo → ℕ) (d : Directory)
    → total_by w (listed d) ≡ total_by (λ e. if is_listed e then w e.info else 0) d
total_by-listed w d =
    total_by-sorted w made_later (map info_of (keep is_listed d)) ∙ total_by-map w d

count-listed :
    (name : Text) (d : Directory)
    → count (λ i. text_beq i.filename name) (map info_of (keep is_listed d))
      ≤ count (λ e. text_beq e.info.filename name) d
count-listed name [] = omega arith
count-listed name (e ∷ d) = ground (arith, count-listed name d)

listed-Distinct : (d : Directory) → NamesOnce d → Distinct (oldest_first (listed d))
listed-Distinct d once = count-Distinct (oldest_first (listed d)) (λ name. omega (
  arith,
  count-oldest_first (λ i. text_beq i.filename name) (listed d),
  count-sorted made_later (λ i. text_beq i.filename name) (map info_of (keep is_listed d)),
  count-listed name d,
  once name,
))

map-All :
    (d : Directory)
    → All (λ e. is_listed e ≡ true) d
    → All (λ i. is_backup_name i.filename ≡ true) (map info_of d)
unfolding is_listed
map-All [] h = tt
map-All (e ∷ d) h = (ground (arith, h.0), map-All d h.1)

listed-All : (d : Directory) → All (λ i. is_backup_name i.filename ≡ true) (oldest_first (listed d))
listed-All d =
    oldest_first-All (λ i. is_backup_name i.filename ≡ true) (listed d)
      (sorted-All made_later (λ i. is_backup_name i.filename ≡ true)
        (map info_of (keep is_listed d)) (map-All (keep is_listed d) (keep-All is_listed d)))

split_bytes :
    (cs : List BackupFileInfo) (d : Directory)
    → total_by
        (λ e.
          if not (hit cs e.info.filename) then 0 else if is_listed e then e.info.size_bytes else 0)
        d
      ≡ total_by
          (λ e.
            if is_listed e then (if hit cs e.info.filename then e.info.size_bytes else 0) else 0)
          d
split_bytes cs [] = refl
split_bytes cs (e ∷ d) = ground (arith, split_bytes cs d)

module _ (protected : List Text) where
  hit-stays :
      (cs : List BackupFileInfo) (e : Entry)
      → All (λ c. (is_backup_name c.filename ≡ true) × (member protected c.filename ≡ false)) cs
      → stays protected e ≡ true
      → hit cs e.info.filename ≡ false
  hit-stays [] e h st = refl
  hit-stays (c ∷ cs) e h st = elim (Bool-cases (text_beq e.info.filename c.filename)) [
    | inl same ↦
        let name = (text_beq_iff e.info.filename c.filename).0 same in
        let backup = ap is_backup_name name in
        let free = ap (member protected) name in absurd (ground (arith, backup, free, h.0))
    | inr other ↦ ground (arith, other, hit-stays cs e h.1 st)
  ]

  module _ (enough : ℕ → Bool) (d : Directory) where
    abbrev chosen : List BackupFileInfo × ℕ
    chosen = collect enough protected 0 (oldest_first (listed d))

    abbrev left : Directory
    left = keep (λ e. not (hit chosen.0 e.info.filename)) d

    chosen-All :
        All
          (λ c. (is_backup_name c.filename ≡ true) × (member protected c.filename ≡ false))
          chosen.0
    chosen-All =
        collect-All enough protected (λ i. is_backup_name i.filename ≡ true) 0
          (oldest_first (listed d)) (listed-All d)

    chosen-unlink_all : unlink_all chosen.0 d ≡ (ok tt, left)
    chosen-unlink_all = unlink_all-hit chosen.0 d (
        All-imp (λ c. (is_backup_name c.filename ≡ true) × (member protected c.filename ≡ false))
          (λ c. is_backup_name c.filename ≡ true) (λ c h. h.0) chosen.0 chosen-All)

    left-stays : keep (stays protected) left ≡ keep (stays protected) d
    left-stays =
        keep-keep (stays protected) (λ e. not (hit chosen.0 e.info.filename)) d
        ∙ keep-cong _ _
            (λ e. elim (Bool-cases (stays protected e)) [
              | inl st ↦ ground (arith, st, hit-stays chosen.0 e chosen-All st)
              | inr gone ↦ ground (arith, gone)
            ])
            d

    left-bytes : NamesOnce d → bytes left + total_bytes chosen.0 ≡ bytes d
    left-bytes once =
        let size = λ (e : Entry). if is_listed e then e.info.size_bytes else 0 in
        omega (
          arith,
          total_bytes-total_by (listed left),
          total_bytes-total_by (listed d),
          total_by-listed (λ i. i.size_bytes) left,
          total_by-listed (λ i. i.size_bytes) d,
          total_by-keep (λ e. not (hit chosen.0 e.info.filename)) size d,
          split_bytes chosen.0 d,
          total_by-listed (λ i. if hit chosen.0 i.filename then i.size_bytes else 0) d,
          total_by-oldest_first (λ i. if hit chosen.0 i.filename then i.size_bytes else 0)
              (listed d),
          weigh-collect enough protected 0 (oldest_first (listed d)) (listed-Distinct d once),
        )

pub bytes-keep : (p : Entry → Bool) (d : Directory) → bytes (keep p d) ≤ bytes d
bytes-keep p d = omega (
  arith,
  total_bytes-total_by (listed (keep p d)),
  total_bytes-total_by (listed d),
  total_by-listed (λ i. i.size_bytes) (keep p d),
  total_by-listed (λ i. i.size_bytes) d,
  total_by-keep p (λ e. if is_listed e then e.info.size_bytes else 0) d,
)

free-split :
    (protected : List Text) (is : List BackupFileInfo)
    → free_bytes protected is
        + total_by (λ i. if member protected i.filename then i.size_bytes else 0) is
      ≡ total_bytes is
free-split protected [] = refl
free-split protected (i ∷ is) = ground (arith, free-split protected is)

-- What a call that frees space ends in: success with room for the incoming bytes, where the files
-- that stay are untouched, or the error that says that the protected backups leave no room, where
-- nothing but stale staging files is gone.
abbrev pub Frees : ℕ → ℕ → ℕ → List Text → Directory → Result (Unit {0}) × Directory → Type 0
Frees now limit incoming protected d (ok _, d') =
    (bytes d' + incoming ≤ limit)
    × ((keep (stays protected) d' ≡ keep (stays protected) (clean now d)) × NamesOnce d')
Frees now limit incoming protected d (value_error, d') =
    (limit < protected_bytes protected (clean now d) + incoming) × (clean now d' ≡ clean now d)
Frees now limit incoming protected d (runtime_error, d') = ⊥
Frees now limit incoming protected d (file_not_found, d') = ⊥

clean-clean : (now : ℕ) (d : Directory) → clean now (clean now d) ≡ clean now d
clean-clean now d =
    keep-keep (λ e. not (is_stale now e)) (λ e. not (is_stale now e)) d
    ∙ keep-cong _ _ (λ e. ground arith) d

pub keep-NamesOnce : (p : Entry → Bool) (d : Directory) → NamesOnce d → NamesOnce (keep p d)
keep-NamesOnce p d once name =
    omega (arith, once name, count-keep (λ e. text_beq e.info.filename name) p d)

pub clean-NamesOnce : (now : ℕ) (d : Directory) → NamesOnce d → NamesOnce (clean now d)
clean-NamesOnce now = keep-NamesOnce (λ e. not (is_stale now e))

-- the tests and deletions for the files that were collected
delete_chosen : ℕ → ℕ → Result (Unit {0}) → List BackupFileInfo × ℕ → Action (Unit {0})
unfolding unlink_all
delete_chosen limit needed failure collected = do
  raise_if (ltb (limit + collected.1) needed) value_error
  unlink_all collected.0
  raise_if (ltb (limit + total_bytes collected.0) needed) failure

lt_false : (a b : ℕ) → leb a b ≡ true → ltb (b + 0) a ≡ false
lt_false a b h = ground (arith, h)

pub raises :
    {A : Type 0} (p : Bool) (k : Action A) (d : Directory)
    → p ≡ true
    → (do raise_if p value_error; k) d ≡ (value_error, d)
raises p k d h = rw h

pub raise_if-passes :
    {A : Type 0} {p : Bool} (failure : Result (Unit {0})) (k : Action A) (d : Directory)
    → p ≡ false
    → (do raise_if p failure; k) d ≡ k d
raise_if-passes failure k d h = rw h

passes :
    (p q : Bool) (failure : Result (Unit {0})) (m : Action (Unit {0})) (d d' : Directory)
    → p ≡ false
    → m d ≡ (ok tt, d')
    → q ≡ false
    → (do raise_if p value_error; m; raise_if q failure) d ≡ (ok tt, d')
passes p q failure m d d' hp hm hq = rw (hp, hm, hq)

delete_chosen-Frees :
    (now limit incoming needed : ℕ) (protected : List Text) (failure : Result (Unit {0}))
    (d : Directory)
    → NamesOnce d
    → needed ≡ bytes (clean now d) + incoming
    → Frees now limit incoming protected d (
        delete_chosen limit needed failure
          (chosen protected (λ r. leb needed (limit + r)) (clean now d))
          (clean now d))
unfolding delete_chosen
delete_chosen-Frees now limit incoming needed protected failure d once sums =
    let d' = clean now d in
    let cleaned = clean-NamesOnce now d once in
    let enough : ℕ → Bool = λ r. leb needed (limit + r) in
    let cs = chosen protected enough d' in
    let counted = collect-total_bytes enough protected 0 (oldest_first (listed d')) in
    elim (Bool-cases (leb needed (limit + cs.1))) [
      | inl fits ↦
          let fewer = left-bytes protected enough d' cleaned in
          subst (Frees now limit incoming protected d)
            (sym (
              passes (ltb (limit + cs.1) needed) (ltb (limit + total_bytes cs.0) needed) failure
                (unlink_all cs.0) d' (left protected enough d') (ground (arith, fits))
                (chosen-unlink_all protected enough d') (ground (arith, fits, counted))))
            (
              ground (arith, fits, counted, fewer),
              (left-stays protected enough d', keep-NamesOnce _ d' cleaned),
            )
      | inr short ↦
          subst (Frees now limit incoming protected d)
            (sym (raises (ltb (limit + cs.1) needed) _ d' (ground (arith, short))))
            (
              elim (collect_ends enough protected 0 (oldest_first (listed d'))) [
                | inl done ↦ absurd (ground (arith, short, done))
                | inr all ↦ ground (
                  arith,
                  short,
                  all,
                  free-split protected (listed d'),
                  total_by-oldest_first
                      (λ i. if member protected i.filename then 0 else i.size_bytes) (listed d'),
                )
              ],
              clean-clean now d,
            )
    ]

-- The same for a limit with nothing incoming.
pub enforce_storage_limit-Frees :
    (now limit : ℕ) (protected : List Text) (d : Directory)
    → 0 < limit
    → NamesOnce d
    → Frees now limit 0 protected d (enforce_storage_limit now (pos limit) protected d)
unfolding enforce_storage_limit cleanup_staging_backups list_backups delete_chosen
enforce_storage_limit-Frees now limit protected d h once =
    let total = bytes (clean now d) in
    let positive : leb_ℤ (pos limit) (pos 0) ≡ false = ground (arith, h) in
    let collected = chosen protected (λ r. leb total (limit + r)) (clean now d) in
    let run =
      λ (c : List BackupFileInfo × ℕ). delete_chosen limit total value_error c (clean now d) in
    subst (Frees now limit 0 protected d) (sym (raise_if-passes value_error _ d positive))
      (elim (Bool-cases (leb total limit)) [
        | inl fits ↦
            subst (Frees now limit 0 protected d) (sym (ap run (if-true ([], 0) collected fits))) (
              rw (lt_false total limit fits)
                (ground (arith, fits), (refl, clean-NamesOnce now d once)))
        | inr over ↦
            subst (Frees now limit 0 protected d) (sym (ap run (if-false ([], 0) collected over)))
              (delete_chosen-Frees now limit 0 total protected value_error d once (omega arith))
      ])

-- With a positive limit and a directory with no name twice, making room for an upload ends with the
-- backups and the incoming bytes within the limit, where the protected backups and all files whose
-- names are not of backups are as before but for stale staging files; or with the error, and then the
-- protected backups and the incoming bytes exceed the limit, and nothing but stale staging files is
-- gone.
pub make_room_for_upload-Frees :
    (now limit incoming : ℕ) (protected : List Text) (d : Directory)
    → 0 < limit
    → NamesOnce d
    → Frees now limit incoming protected d
        (make_room_for_upload now (pos limit) incoming protected d)
unfolding make_room_for_upload cleanup_staging_backups list_backups delete_chosen
make_room_for_upload-Frees now limit incoming protected d h once =
    let needed = bytes (clean now d) + incoming in
    let positive : leb_ℤ (pos limit) (pos 0) ≡ false = ground (arith, h) in
    subst (Frees now limit incoming protected d) (sym (raise_if-passes value_error _ d positive))
      (elim (Bool-cases (ltb limit incoming)) [
        | inl large ↦
            subst (Frees now limit incoming protected d)
              (sym (raises (ltb limit incoming) _ d large)) (ground (arith, large), refl)
        | inr small ↦
            subst (Frees now limit incoming protected d)
              (sym (raise_if-passes value_error _ d small))
              (elim (Bool-cases (leb needed limit)) [
                | inl fits ↦
                    subst (Frees now limit incoming protected d)
                      (sym (ap (λ (k : Action (Unit {0})). k (clean now d)) (if-true _ _ fits)))
                      (ground (arith, fits), (refl, clean-NamesOnce now d once))
                | inr over ↦
                    subst (Frees now limit incoming protected d)
                      (sym (ap (λ (k : Action (Unit {0})). k (clean now d)) (if-false _ _ over)))
                      (delete_chosen-Frees now limit incoming needed protected runtime_error d once
                        refl)
              ])
      ])
