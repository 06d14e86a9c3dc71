-- ===== src/Backups/Upload.antt =====
-- `create_backup` and `save_uploaded_backup`. A call reads the clock when it starts and again when
-- the staging file is written: the calls after that take no time. The name of the staging file comes
-- from mkstemp, the stamp from strftime and the suffix from uuid4.
pub mod Target
pub mod Whole
pub mod Ends
pub mod Stored
use kor_travel_transport.Prelude.{
  ℕ, zero, ◌+◌, ◌*◌, Bool, true, false, not, Option, none, some, List, [], ◌∷◌, ◌++◌, map, take,
  ltb, leb, ◌==◌, if◌then◌else◌, ℤ, pos, pos_part, leb_ℤ,
}
use kor_travel_transport.Prelude.Chars.{Text, codes, or_text}
use kor_travel_transport.Backups.{
  BackupFileInfo, Entry, Directory, Result, ok, value_error, runtime_error, file_not_found, regular,
  Action, ◌>>=◌, ◌>>◌, return, raise_if, is_word, is_some, prefix, is_backup_name, remove, entry,
  is_file, is_there, cleanup_staging_backups, max_backup_bytes,
}
use kor_travel_transport.Backups.Storage.{
  enforce_storage_limit, make_room_for_upload, prune_backups,
}

-- `finally`, and `except Exception: ...; raise`
abbrev pub finally : {A : Type 0} → Action A → (Directory → Directory) → Action A
finally m f d = let (r, d') = m d in (r, f d')

abbrev pub after_raise :
    {A : Type 0} → (Directory → Directory) → Result A × Directory → Result A × Directory
after_raise f (ok a, d) = (ok a, d)
after_raise f (r, d) = (r, f d)

abbrev pub on_raise : {A : Type 0} → Action A → (Directory → Directory) → Action A
on_raise m f d = after_raise f (m d)

abbrev pub file : Text → ℕ → ℕ → Entry
file name size time = record {
  info = record { filename = name; size_bytes = size; created_at = time };
  kind = regular;
}

-- a file that is written anew, in place of one of its name
abbrev pub write_file : Text → ℕ → ℕ → Action (Unit {0})
write_file name size time d = (ok tt, file name size time ∷ remove name d)

-- `temporary_path.replace(path)`
abbrev pub renamed : Text → Option Entry → Directory → Directory
renamed to none d = d
renamed to (some e) d = record e { info = record (e.info) { filename = to } } ∷ remove to d

abbrev pub replace : Text → Text → Action (Unit {0})
replace from to d = (
  if is_some (entry from d) then ok tt else file_not_found,
  renamed to (entry from d) (remove from d),
)

-- `path.stat()`
abbrev pub stat_of : Option Entry → Result BackupFileInfo
stat_of none = file_not_found
stat_of (some e) = if is_there e.kind then ok e.info else file_not_found

abbrev pub stat : Text → Action BackupFileInfo
stat name d = (stat_of (entry name d), d)

-- `path.exists()`, which is false for a dangling symlink
abbrev pub exists : Option Entry → Bool
exists none = false
exists (some e) = is_there e.kind

-- the name of a new backup, with the suffix where the path exists
abbrev pub dump_name : Text → Text → Directory → Text
dump_name name other d = if exists (entry name d) then other else name

pub create_backup :
    (dump : Result ℕ) (start finish free : ℕ) (staging stamp suffix : Text)
    → ℤ
    → ℤ
    → Action BackupFileInfo
unfolding cleanup_staging_backups
create_backup dump start finish free staging stamp suffix retention_count storage_limit = do
  cleanup_staging_backups start
  let first = prefix ++ (stamp ++ codes ".dump")
  raise_if (not (is_backup_name first)) value_error
  filename ←
      λ d. (ok (dump_name first (prefix ++ (stamp ++ b'-' ∷ (suffix ++ codes ".dump"))) d), d)
  raise_if (not (is_backup_name filename)) value_error
  enforce_storage_limit start storage_limit []
  raise_if (ltb free max_backup_bytes) value_error
  finally
      (on_raise
        (do
          size ← λ d. (dump, d)
          write_file staging size finish
          raise_if (ltb max_backup_bytes size) value_error
          make_room_for_upload finish storage_limit size (filename ∷ [])
          replace staging filename
          prune_backups finish retention_count storage_limit (filename ∷ []))
        (remove filename))
      (remove staging)
  stat filename

-- what `uploaded_file.read` gives: a chunk of some bytes, or no answer in time
pub data Read : Type 0 where
  chunk : ℕ → Read
  timed_out : Read

-- The loop over the chunks: the clock before each read and what the read gives. A client that has
-- sent all gives empty chunks.
pub receive : ℕ → ℕ → List (ℕ × Read) → Result ℕ
receive deadline written [] = ok written
receive deadline written ((clock, timed_out) ∷ reads) = value_error
receive deadline written ((clock, chunk size) ∷ reads) =
    let rest = receive deadline (written + size) reads in
    if leb deadline clock
    then value_error
    else if size == 0
    then ok written
    else if ltb max_backup_bytes (written + size)
    then value_error
    else rest

-- `re.sub(r"[^A-Za-z0-9_-]", "-", stem)[:48] or "upload"`
abbrev pub safe_char : ℕ → ℕ
safe_char c = if is_word c then c else b'-'

abbrev pub safe_stem : Text → Text
safe_stem stem = or_text (take 48 (map safe_char stem)) (codes "upload")

abbrev pub upload_name : Text → Text → Text
upload_name stamp stem = prefix ++ (stamp ++ b'-' ∷ (safe_stem stem ++ codes ".dump"))

abbrev pub upload_name_again : Text → Text → Text → Text
upload_name_again stamp suffix stem =
    prefix ++ (stamp ++ b'-' ∷ (suffix ++ b'-' ∷ (safe_stem stem ++ codes ".dump")))

-- the part of the upload that is in `try`
pub receive_upload :
    (reads : List (ℕ × Read)) (deadline finish free : ℕ) (staging filename : Text)
    → ℤ
    → List Text
    → Action ℕ
unfolding receive
receive_upload reads deadline finish free staging filename storage_limit protected = do
  raise_if (ltb free max_backup_bytes) value_error
  written ← λ d. (receive deadline 0 reads, d)
  write_file staging written finish
  make_room_for_upload finish storage_limit written (filename ∷ protected)
  replace staging filename
  enforce_storage_limit finish storage_limit (filename ∷ protected)
  return written

-- from the name of the file to the answer
pub write_upload :
    (reads : List (ℕ × Read)) (deadline finish free : ℕ) (staging : Text)
    → ℤ
    → List Text
    → Text
    → Action BackupFileInfo
unfolding receive_upload
write_upload reads deadline finish free staging storage_limit protected filename = do
  raise_if (not (is_backup_name filename)) value_error
  written ←
      finally
        (on_raise
          (receive_upload reads deadline finish free staging filename storage_limit protected)
          (remove filename))
        (remove staging)
  info ← stat filename
  return (record info { size_bytes = written })

-- the name of an upload: the second, with a suffix, where `path.exists() or path.is_symlink()`
abbrev pub free_name : Text → Text → Directory → Text
free_name name other d = if is_some (entry name d) then other else name

-- the choice of the name: the second has a suffix
pub name_upload : Text → Text → (Text → Action BackupFileInfo) → Action BackupFileInfo
name_upload first again write = do
  raise_if (not (is_backup_name first)) value_error
  filename ← λ d. (ok (free_name first again d), d)
  write filename

pub save_uploaded_backup :
    (reads : List (ℕ × Read)) (start finish free : ℕ) (staging stamp suffix stem : Text)
    → ℤ
    → List Text
    → ℤ
    → Action BackupFileInfo
unfolding write_upload name_upload cleanup_staging_backups
save_uploaded_backup reads start finish free staging stamp suffix stem storage_limit protected
      timeout =
    do
      raise_if (leb_ℤ timeout (pos 0)) value_error
      cleanup_staging_backups start
      name_upload (upload_name stamp stem) (upload_name_again stamp suffix stem) (
          write_upload reads (start + pos_part timeout) finish free staging storage_limit protected)

-- `path.is_symlink() or not path.is_file()`
abbrev pub regular_backup : Option Entry → Result BackupFileInfo
regular_backup none = file_not_found
regular_backup (some e) = if is_file e.kind then ok e.info else file_not_found

-- pg_restore reads the file and changes nothing in the directory
pub restore_backup : Result (Unit {0}) → Text → Action BackupFileInfo
restore_backup restored filename = do
  raise_if (not (is_backup_name filename)) value_error
  info ← λ d. (regular_backup (entry filename d), d)
  raise_if (ltb max_backup_bytes info.size_bytes) value_error
  λ d. (restored, d)
  stat filename
