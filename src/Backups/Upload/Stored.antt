-- ===== src/Backups/Upload/Stored.antt =====
-- The whole of `save_uploaded_backup`.
use kor_travel_transport.Prelude.{
  ℕ, ◌+◌, ◌≤◌, ◌<◌, ◌≡◌, refl, sym, ap, ◌∙◌, Bool, true, false, not, Option, none, some, List, [],
  ◌∷◌, keep, arith, if◌then◌else◌, Bool-cases, inl, inr, pos, subst,
}
use kor_travel_transport.Prelude.Chars.{Text, text_beq, text_beq_iff}
use kor_travel_transport.Backups.{
  BackupFileInfo, Entry, Directory, Result, ok, value_error, runtime_error, file_not_found, Action,
  ◌>>=◌, ◌>>◌, return, then_do, is_some, is_backup_name, remove, entry, cleanup_staging_backups,
  max_backup_bytes, is_stale,
}
use kor_travel_transport.Backups.Storage.Limit.{
  NamesOnce, clean, bytes, bytes-keep, clean-NamesOnce, raise_if-passes, raises,
}
use kor_travel_transport.Backups.Upload.{
  Read, after_raise, stat, receive_upload, save_uploaded_backup, write_upload, name_upload, file,
  free_name, upload_name, upload_name_again,
}
use kor_travel_transport.Backups.Upload.Whole.{IsWhole}
use kor_travel_transport.Backups.Upload.Ends.{
  Returns, Stored, entry-keep, entry-remove, receive_upload-Returns,
}

-- How an upload of some reads ends: with the whole file under its name, the limit kept and no staging
-- file, or with an error and neither of the two files.
abbrev pub Finished :
    List (ℕ × Read) → ℕ → ℕ → Text → Text → Result BackupFileInfo × Directory → Type 0
Finished reads limit finish staging target (ok info, d) =
    IsWhole reads info.size_bytes
    × (bytes d ≤ limit)
    × (info.size_bytes ≤ max_backup_bytes)
    × (entry target d ≡ some (file target info.size_bytes finish))
    × (entry staging d ≡ none)
Finished reads limit finish staging target (value_error, d) =
    (entry target d ≡ none) × (entry staging d ≡ none)
Finished reads limit finish staging target (runtime_error, d) =
    (entry target d ≡ none) × (entry staging d ≡ none)
Finished reads limit finish staging target (file_not_found, d) =
    (entry target d ≡ none) × (entry staging d ≡ none)

entry-keep-none :
    (p : Entry → Bool) (name : Text) (d : Directory)
    → entry name d ≡ none
    → entry name (keep p d) ≡ none
entry-keep-none p name [] h = refl
entry-keep-none p name (e ∷ d) h = ground (arith, h, entry-keep-none p name d)

free_name-free :
    (first again : Text) (d : Directory)
    → entry again d ≡ none
    → entry (free_name first again d) d ≡ none
free_name-free first again d h = if-cases-free (entry first d) refl
  where
    if-cases-free :
        (o : Option Entry) → entry first d ≡ o → entry (if is_some o then again else first) d ≡ none
    if-cases-free none e = e
    if-cases-free (some f) e = h

-- what `finally`, `except` and the `stat` at the end make of the result
abbrev ending : Text → Text → Result ℕ × Directory → Result BackupFileInfo × Directory
ending staging target r =
    then_do (let (r', d') = after_raise (remove target) r in (r', remove staging d'))
      λ written. do info ← stat target; return (record info { size_bytes = written })

module _ (reads : List (ℕ × Read)) (limit finish : ℕ) (staging target : Text)
    (protected : List Text) (apart : text_beq target staging ≡ false) where
  gone :
      (d : Directory)
      → (entry target (remove staging (remove target d)) ≡ none)
        × (entry staging (remove staging (remove target d)) ≡ none)
  gone d = (
    entry-keep-none (λ e. not (text_beq e.info.filename staging)) target (remove target d)
        (entry-remove target d),
    entry-remove staging (remove target d),
  )

  ending-Finished :
      (r : Result ℕ × Directory)
      → Returns (Stored finish limit staging target protected reads) r
      → Finished reads limit finish staging target (ending staging target r)
  ending-Finished (ok written, d) h =
      let there : entry target (remove staging d) ≡ some (file target written finish) =
        entry-keep (λ e. not (text_beq e.info.filename staging)) target d
          (λ e same.
            ap (λ n. not (text_beq n staging)) ((text_beq_iff e.info.filename target).0 same)
            ∙ ap not apart)
        ∙ h.1.1.1 in
      rw there (
        h.0,
        ground (arith, h.1.0, bytes-keep (λ e. not (text_beq e.info.filename staging)) d),
        h.1.1.0,
        there,
        entry-remove staging d,
      )
  ending-Finished (value_error, d) h = gone d
  ending-Finished (runtime_error, d) h = gone d
  ending-Finished (file_not_found, d) h = gone d

names_apart :
    (a b : Text) → is_backup_name a ≡ true → is_backup_name b ≡ false → text_beq a b ≡ false
names_apart a b ha hb = elim (Bool-cases (text_beq a b)) [
  | inl same ↦ cc (ap is_backup_name ((text_beq_iff a b).0 same))
  | inr other ↦ other
]

name_upload-Finished :
    (first again : Text) (write : Text → Action BackupFileInfo) (d : Directory)
    (P : Result BackupFileInfo × Directory → Type 0)
    → is_backup_name first ≡ true
    → P (write (free_name first again d) d)
    → P (name_upload first again write d)
unfolding name_upload
name_upload-Finished first again write d P valid h =
    let rest : Action BackupFileInfo = λ d. write (free_name first again d) d in
    subst P (sym (raise_if-passes value_error rest d (ap not valid))) h

write_upload-Finished :
    (reads : List (ℕ × Read)) (deadline finish free : ℕ) (staging : Text) (limit : ℕ)
    (protected : List Text) (target : Text) (d : Directory)
    → 0 < limit
    → is_backup_name staging ≡ false
    → NamesOnce d
    → entry target d ≡ none
    → entry staging d ≡ none
    → Finished reads limit finish staging target
        (write_upload reads deadline finish free staging (pos limit) protected target d)
unfolding write_upload
write_upload-Finished reads deadline finish free staging limit protected target d positive hidden
      once no_target no_staging =
    let P = Finished reads limit finish staging target in
    let rest : Action BackupFileInfo = λ d'.
      ending staging target
        (receive_upload reads deadline finish free staging target (pos limit) protected d') in
    elim (Bool-cases (is_backup_name target)) [
      | inl backup ↦ subst P (sym (raise_if-passes value_error rest d (ap not backup))) (
          ending-Finished reads limit finish staging target protected
            (names_apart target staging backup hidden)
            (receive_upload reads deadline finish free staging target (pos limit) protected d)
            (receive_upload-Returns finish limit staging target protected positive backup hidden
              reads deadline free d once))
      | inr wrong ↦
          subst P (sym (raises (not (is_backup_name target)) rest d (ap not wrong)))
            (no_target, no_staging)
    ]

-- the name that an upload gets
abbrev pub target_of : ℕ → Text → Text → Text → Directory → Text
target_of start stamp suffix stem d =
    free_name (upload_name stamp stem) (upload_name_again stamp suffix stem) (clean start d)

-- For a positive limit and timeout, a directory with no name twice, a first name that is valid, and a
-- staging file and a second name that are not there yet: an upload ends with the whole file under its
-- name, which has the bytes of all reads up to an empty chunk, none of them timed out, the storage limit
-- kept and no staging file, or with an error and neither of the two files.
pub save_uploaded_backup-Finished :
    (reads : List (ℕ × Read)) (start finish free : ℕ) (staging stamp suffix stem : Text) (limit : ℕ)
    (protected : List Text) (timeout : ℕ) (d : Directory)
    → 0 < limit
    → 0 < timeout
    → NamesOnce d
    → is_backup_name (upload_name stamp stem) ≡ true
    → is_backup_name staging ≡ false
    → entry staging d ≡ none
    → entry (upload_name_again stamp suffix stem) d ≡ none
    → Finished reads limit finish staging (target_of start stamp suffix stem d) (
        save_uploaded_backup reads start finish free staging stamp suffix stem
          (pos limit)
          protected
          (pos timeout)
          d)
unfolding save_uploaded_backup cleanup_staging_backups
save_uploaded_backup-Finished reads start finish free staging stamp suffix stem limit protected
      timeout d positive waits once valid hidden fresh again =
    let d' = clean start d in
    let target = target_of start stamp suffix stem d in
    let P = Finished reads limit finish staging target in
    let no_staging : entry staging d' ≡ none =
      entry-keep-none (λ e. not (is_stale start e)) staging d fresh in
    let no_target : entry target d' ≡ none =
      free_name-free (upload_name stamp stem) (upload_name_again stamp suffix stem) d' (
        entry-keep-none (λ e. not (is_stale start e)) (upload_name_again stamp suffix stem) d
          again) in
    let deadline = start + timeout in
    let write = write_upload reads deadline finish free staging (pos limit) protected in
    let named = name_upload (upload_name stamp stem) (upload_name_again stamp suffix stem) write in
    let rest = cleanup_staging_backups start >> named in
    subst P (sym (raise_if-passes value_error rest d (ground (arith, waits)))) (
      name_upload-Finished (upload_name stamp stem) (upload_name_again stamp suffix stem) write d' P
        valid
        (write_upload-Finished reads deadline finish free staging limit protected target d' positive
          hidden (clean-NamesOnce start d once) no_target no_staging))
