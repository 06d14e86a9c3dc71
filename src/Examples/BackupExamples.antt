-- ===== src/Examples/BackupExamples.antt =====
-- A directory with an old and a new backup, and an upload of five bytes.
use kor_travel_transport.Prelude.{
  ℕ, ◌≡◌, ◌++◌, refl, true, false, none, List, [], ◌∷◌, pos, arith, inl, inr, Bool-cases, ap, sym,
  ◌∙◌,
}
use kor_travel_transport.Prelude.Chars.{Text, codes, text_beq, text_beq_iff}
use kor_travel_transport.Backups.{Directory, is_backup_name, entry}
use kor_travel_transport.Backups.Storage.{make_room_for_upload}
use kor_travel_transport.Backups.Storage.Limit.{NamesOnce, Frees, make_room_for_upload-Frees}
use kor_travel_transport.Backups.Upload.{
  Read, chunk, file, upload_name, upload_name_again, save_uploaded_backup,
}
use kor_travel_transport.Backups.Upload.Target.{upload_name-valid}
use kor_travel_transport.Backups.Upload.Stored.{Finished, target_of, save_uploaded_backup-Finished}

abbrev old_name : Text
old_name = codes "kor-travel-transport-20260101T000000Z.dump"

abbrev new_name : Text
new_name = codes "kor-travel-transport-20260201T000000Z.dump"

abbrev shelf : Directory
shelf = file old_name 40 100 ∷ file new_name 50 200 ∷ []

abbrev digits : Text
digits = codes "20260301T000000"

abbrev upload_stamp : Text
upload_stamp = digits ++ b'Z' ∷ []

abbrev staging : Text
staging = codes ".kor-travel-transport-upload-x.dump"

abbrev suffix : Text
suffix = codes "0123456789ab"

apart : text_beq new_name old_name ≡ false
unfolding text_beq
apart = refl

shelf-NamesOnce : NamesOnce shelf
shelf-NamesOnce name = elim (Bool-cases (text_beq old_name name)) [
  | inl same ↦
      let other : text_beq new_name name ≡ false =
        ap (text_beq new_name) (sym ((text_beq_iff old_name name).0 same)) ∙ apart in
      rw (same, other) (omega arith)
  | inr other ↦ elim (Bool-cases (text_beq new_name name)) [
    | inl same ↦ rw (other, same) (omega arith)
    | inr neither ↦ rw (other, neither) (omega arith)
  ]
]

name_valid : is_backup_name (upload_name upload_stamp (codes "my dump")) ≡ true
unfolding is_backup_name text_beq
name_valid = refl

staging_hidden : is_backup_name staging ≡ false
unfolding is_backup_name
staging_hidden = refl

no_staging : entry staging shelf ≡ none
unfolding text_beq
no_staging = refl

no_other : entry (upload_name_again upload_stamp suffix (codes "my dump")) shelf ≡ none
unfolding text_beq
no_other = refl

upload_name-valid_example : is_backup_name (upload_name upload_stamp (codes "my dump")) ≡ true
upload_name-valid_example = upload_name-valid digits (codes "my dump") refl refl

make_room_for_upload-Frees_example :
    Frees 300 90 30
      (new_name ∷ [])
      shelf
      (make_room_for_upload 300 (pos 90) 30 (new_name ∷ []) shelf)
make_room_for_upload-Frees_example =
    make_room_for_upload-Frees 300 90 30 (new_name ∷ []) shelf (omega arith) shelf-NamesOnce

abbrev reads : List (ℕ × Read)
reads = (300, chunk 3) ∷ (301, chunk 2) ∷ (302, chunk 0) ∷ []

save_uploaded_backup-Finished_example :
    Finished reads 90 310 staging (target_of 300 upload_stamp suffix (codes "my dump") shelf) (
      save_uploaded_backup reads 300 310 3_000_000_000 staging upload_stamp suffix
        (codes "my dump")
        (pos 90)
        (new_name ∷ [])
        (pos 600)
        shelf)
save_uploaded_backup-Finished_example =
    save_uploaded_backup-Finished reads 300 310 3_000_000_000 staging upload_stamp suffix
      (codes "my dump") 90 (new_name ∷ []) 600 shelf (omega arith) (omega arith) shelf-NamesOnce
      name_valid staging_hidden no_staging no_other
