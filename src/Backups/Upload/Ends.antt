-- ===== src/Backups/Upload/Ends.antt =====
-- What an upload leaves behind.
use kor_travel_transport.Prelude.{
  ℕ, ◌≤◌, ◌<◌, ◌≡◌, refl, sym, ap, ◌∙◌, Bool, true, false, not, none, some, List, [], ◌∷◌, keep,
  count, arith, ltb, ◌==◌, subst, Bool-cases, inl, inr, pos, if-true, if-false,
}
use kor_travel_transport.Prelude.Chars.{Text, text_beq, text_beq_self, text_beq_iff}
use kor_travel_transport.Backups.{
  Entry, Directory, Result, ok, value_error, runtime_error, file_not_found, Action, raise_if,
  then_do, is_some, is_backup_name, remove, entry, after, prefix, max_backup_bytes, is_stale,
}
use kor_travel_transport.Backups.Storage.{enforce_storage_limit, make_room_for_upload}
use kor_travel_transport.Backups.Storage.Sums.{count-keep}
use kor_travel_transport.Backups.Storage.Limit.{
  NamesOnce, clean, bytes, stays, Frees, enforce_storage_limit-Frees, make_room_for_upload-Frees,
}
use kor_travel_transport.Backups.Upload.{Read, receive, replace, receive_upload, file}
use kor_travel_transport.Backups.Upload.Whole.{IsWhole, receive-IsWhole}

-- what holds of the value and the directory of a call that returns
abbrev pub Returns : {A : Type 0} → (A → Directory → Type 0) → Result A × Directory → Type 0
Returns P (ok a, d) = P a d
Returns P (value_error, d) = Unit
Returns P (runtime_error, d) = Unit
Returns P (file_not_found, d) = Unit

Returns-then :
    {A B : Type 0} (P : A → Directory → Type 0) (Q : B → Directory → Type 0) (f : A → Action B)
    (r : Result A × Directory)
    → Returns P r
    → ((a : A) (d : Directory) → P a d → Returns Q (f a d))
    → Returns Q (then_do r f)
Returns-then P Q f (ok a, d) p k = k a d p
Returns-then P Q f (value_error, d) p k = tt
Returns-then P Q f (runtime_error, d) p k = tt
Returns-then P Q f (file_not_found, d) p k = tt

pub entry-keep :
    (p : Entry → Bool) (name : Text) (d : Directory)
    → ((e : Entry) → text_beq e.info.filename name ≡ true → p e ≡ true)
    → entry name (keep p d) ≡ entry name d
entry-keep p name [] h = refl
entry-keep p name (e ∷ d) h = elim (Bool-cases (text_beq e.info.filename name)) [
  | inl same ↦ ground (arith, same, h e same)
  | inr other ↦ ground (arith, other, entry-keep p name d h)
]

pub entry-remove : (name : Text) (d : Directory) → entry name (remove name d) ≡ none
entry-remove name [] = refl
entry-remove name (e ∷ d) = ground (arith, entry-remove name d)

module _ (deadline : ℕ) where
  -- what the loop gives on a directory
  abbrev Received : List (ℕ × Read) → ℕ → Directory → Type 0
  Received reads written d' = IsWhole reads written × (written ≤ max_backup_bytes) × NamesOnce d'

  receive-Returns :
      (reads : List (ℕ × Read)) (d : Directory)
      → NamesOnce d
      → Returns (Received reads) (receive deadline 0 reads, d)
  receive-Returns reads d once = received (receive deadline 0 reads) refl
    where
      received : (r : Result ℕ) → receive deadline 0 reads ≡ r → Returns (Received reads) (r, d)
      received (ok size) e =
          let (rest, whole, sum, bound) = receive-IsWhole deadline 0 reads size (omega arith) e in
          (subst (IsWhole reads) (ground (arith, sum)) whole, bound, once)
      received value_error e = tt
      received runtime_error e = tt
      received file_not_found e = tt

remove-NamesOnce : (name : Text) (d : Directory) → NamesOnce d → NamesOnce (remove name d)
remove-NamesOnce name d once n = omega (
  arith,
  once n,
  count-keep (λ e. text_beq e.info.filename n) (λ e. not (text_beq e.info.filename name)) d,
)

count-remove :
    (n name : Text) (d : Directory)
    → text_beq name n ≡ true
    → count (λ e. text_beq e.info.filename n) (remove name d) ≡ 0
count-remove n name [] h = refl
count-remove n name (e ∷ d) h = ground (
  arith,
  h,
  text_beq_iff name n,
  text_beq_iff e.info.filename n,
  text_beq_iff e.info.filename name,
  count-remove n name d h,
)

-- a file in place of one of its name
put-NamesOnce :
    (f : Entry) (name : Text) (d : Directory)
    → f.info.filename ≡ name
    → NamesOnce d
    → NamesOnce (f ∷ remove name d)
put-NamesOnce f name d e once n = elim (Bool-cases (text_beq name n)) [
  | inl same ↦ ground (arith, count-remove n name d same)
  | inr other ↦
      let mine : text_beq f.info.filename n ≡ false = ap (λ t. text_beq t n) e ∙ other in
      ground (arith, mine, remove-NamesOnce name d once n)
]

-- a name of a backup is not the name of a staging file
backup-dot :
    (name : Text) → is_backup_name name ≡ true → is_some (after (b'.' ∷ prefix) name) ≡ false
unfolding is_backup_name
backup-dot [] h = cc
backup-dot (c ∷ s) h = elim (Bool-cases (b'.' == c)) [
  | inl dot ↦ absurd (ground (arith, dot, h))
  | inr letter ↦ ap is_some (if-false (after prefix s) none letter)
]

pub backup-fresh :
    (now : ℕ) (e : Entry) → is_backup_name e.info.filename ≡ true → is_stale now e ≡ false
unfolding is_stale
backup-fresh now e h = ground (arith, backup-dot e.info.filename h)

written-fresh : (name : Text) (size now : ℕ) → is_stale now (file name size now) ≡ false
unfolding is_stale
written-fresh name size now = ground arith

raise_if-Returns :
    (P : Unit {0} → Directory → Type 0) (c : Bool) (d : Directory)
    → P tt d
    → Returns P (raise_if c value_error d)
raise_if-Returns P true d h = tt
raise_if-Returns P false d h = h

module _ (protected : List Text) where
  stays-entry :
      (name : Text) (d d' : Directory)
      → ((e : Entry) → text_beq e.info.filename name ≡ true → stays protected e ≡ true)
      → keep (stays protected) d' ≡ keep (stays protected) d
      → entry name d' ≡ entry name d
  stays-entry name d d' h same =
      sym (entry-keep (stays protected) name d' h)
      ∙ ap (entry name) same
      ∙ entry-keep (stays protected) name d h

  Frees-Returns :
      (now limit incoming : ℕ) (d : Directory) (Q : Directory → Type 0)
      → ((d' : Directory) → Frees now limit incoming protected d (ok tt, d') → Q d')
      → (r : Result (Unit {0}) × Directory) → Frees now limit incoming protected d r
      → Returns (λ _ d'. Q d') r
  Frees-Returns now limit incoming d Q k (ok _, d') h = k d' h
  Frees-Returns now limit incoming d Q k (value_error, d') h = tt
  Frees-Returns now limit incoming d Q k (runtime_error, d') h = tt
  Frees-Returns now limit incoming d Q k (file_not_found, d') h = tt

replace-Returns :
    (from to : Text) (f : Entry) (d : Directory)
    → NamesOnce d
    → entry from d ≡ some f
    → Returns
        (λ _ d'.
          NamesOnce d'
          × (entry to d' ≡ some (record f { info = record (f.info) { filename = to } })))
        (replace from to d)
replace-Returns from to f d once found = rw found (
  put-NamesOnce (record f { info = record (f.info) { filename = to } }) to (remove from d) refl
      (remove-NamesOnce from d once),
  if-true _ _ (text_beq_self to),
)

module _ (finish limit : ℕ) (staging filename : Text) (protected : List Text) where
  -- the file stands under its name, and the limit is kept
  abbrev pub Placed : ℕ → Directory → Type 0
  Placed written d =
      (bytes d ≤ limit)
      × ((written ≤ max_backup_bytes) × (entry filename d ≡ some (file filename written finish)))

  -- and it has all the bytes of the reads
  abbrev pub Stored : List (ℕ × Read) → ℕ → Directory → Type 0
  Stored reads written d = IsWhole reads written × Placed written d

  module _ (positive : 0 < limit) (backup : is_backup_name filename ≡ true)
      (hidden : is_backup_name staging ≡ false) where
    room-Returns :
        (written : ℕ) (d : Directory)
        → NamesOnce d
        → Returns
            (λ _ d'. NamesOnce d' × (entry staging d' ≡ some (file staging written finish)))
            (make_room_for_upload finish
              (pos limit)
              written
              (filename ∷ protected)
              (file staging written finish ∷ remove staging d))
    room-Returns written d once =
        let d1 = file staging written finish ∷ remove staging d in
        let once1 = put-NamesOnce (file staging written finish) staging d refl once in
        Frees-Returns (filename ∷ protected) finish limit written d1
          (λ d'. NamesOnce d' × (entry staging d' ≡ some (file staging written finish)))
          (λ d' h. (
            h.1.1,
            stays-entry (filename ∷ protected) staging (clean finish d1) d'
                  (λ e same. ground (
                    arith,
                    ap is_backup_name ((text_beq_iff e.info.filename staging).0 same) ∙ hidden,
                  ))
                  h.1.0
                ∙ ground (arith, written-fresh staging written finish, text_beq_self staging),
          ))
          (make_room_for_upload finish (pos limit) written (filename ∷ protected) d1)
          (make_room_for_upload-Frees finish limit written (filename ∷ protected) d1 positive once1)

    enforce-Returns :
        (written : ℕ) (d : Directory)
        → written ≤ max_backup_bytes
        → NamesOnce d
        → entry filename d ≡ some (file filename written finish)
        → Returns
            (λ _ d'. Placed written d')
            (enforce_storage_limit finish (pos limit) (filename ∷ protected) d)
    enforce-Returns written d small once there =
        Frees-Returns (filename ∷ protected) finish limit 0 d (Placed written)
          (λ d' h. (
            ground (arith, h.0),
            (
              small,
              stays-entry (filename ∷ protected) filename (clean finish d) d'
                    (λ e same. ground (arith, same)) h.1.0
                  ∙ entry-keep (λ e. not (is_stale finish e)) filename d
                      (λ e same. ap not (
                        backup-fresh finish e (
                          ap is_backup_name ((text_beq_iff e.info.filename filename).0 same)
                          ∙ backup)))
                  ∙ there,
            ),
          ))
          (enforce_storage_limit finish (pos limit) (filename ∷ protected) d)
          (enforce_storage_limit-Frees finish limit (filename ∷ protected) d positive once)

    pub receive_upload-Returns :
        (reads : List (ℕ × Read)) (deadline free : ℕ) (d : Directory)
        → NamesOnce d
        → Returns
            (Stored reads)
            (receive_upload reads deadline finish free staging filename (pos limit) protected d)
    unfolding receive_upload
    receive_upload-Returns reads deadline free d once =
        Returns-then (λ _ d'. NamesOnce d') (Stored reads) _
          (raise_if (ltb free max_backup_bytes) value_error d)
          (raise_if-Returns (λ _ d'. NamesOnce d') (ltb free max_backup_bytes) d once)
          λ _ d1 once1.
            Returns-then (Received deadline reads) (Stored reads) _ (receive deadline 0 reads, d1)
              (receive-Returns deadline reads d1 once1)
              λ written d2 p.
                Returns-then
                  (λ _ d'. NamesOnce d' × (entry staging d' ≡ some (file staging written finish)))
                  (Stored reads) _
                  (make_room_for_upload finish (pos limit) written (filename ∷ protected)
                    (file staging written finish ∷ remove staging d2))
                  (room-Returns written d2 p.2)
                  λ _ d3 q.
                    Returns-then
                      (λ _ d'.
                        NamesOnce d' × (entry filename d' ≡ some (file filename written finish)))
                      (Stored reads) _ (replace staging filename d3)
                      (replace-Returns staging filename (file staging written finish) d3 q.0 q.1)
                      λ _ d4 r.
                        Returns-then (λ _ d'. Placed written d') (Stored reads) _
                          (enforce_storage_limit finish (pos limit) (filename ∷ protected) d4)
                          (enforce-Returns written d4 p.1 r.0 r.1) λ _ d5 u. (p.0, u)
