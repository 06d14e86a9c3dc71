-- ===== src/Backups/Storage.antt =====
-- `_list_backups_sync`, `_enforce_storage_limit_sync`, `_make_room_for_upload_sync` and
-- `_prune_backups_sync`. The set of protected names is a list; a call without it gives an empty one.
pub mod Sums
pub mod Chosen
pub mod Limit
use kor_travel_transport.Prelude.{
  ℕ, zero, suc, ◌+◌, ◌-◌, Bool, true, false, List, [], ◌∷◌, ◌++◌, map, any, keep, ltb, leb, ◌&&◌,
  ◌||◌, if◌then◌else◌, ℤ, pos, pos_part, leb_ℤ,
}
use kor_travel_transport.Prelude.Chars.{Text, text_beq}
use kor_travel_transport.Prelude.Sort.{sorted}
use kor_travel_transport.Backups.{
  BackupFileInfo, Entry, Directory, Result, ok, value_error, runtime_error, is_backup_name, is_file,
  Action, ◌>>=◌, ◌>>◌, return, raise_if, unlink_backup, cleanup_staging_backups,
}

-- the newest first, with equal times in the order of the directory
abbrev pub made_later : BackupFileInfo → BackupFileInfo → Bool
made_later a b = ltb b.created_at a.created_at

pub is_listed : Entry → Bool
unfolding is_backup_name
is_listed e = is_file e.kind && is_backup_name e.info.filename

abbrev pub info_of : Entry → BackupFileInfo
info_of e = e.info

abbrev pub listed : Directory → List BackupFileInfo
listed d = sorted made_later (map info_of (keep is_listed d))

pub list_backups : ℕ → Action (List BackupFileInfo)
unfolding is_listed
list_backups now = do cleanup_staging_backups now; λ d. (ok (listed d), d)

abbrev pub total_bytes : List BackupFileInfo → ℕ
total_bytes [] = 0
total_bytes (i ∷ is) = i.size_bytes + total_bytes is

-- `reversed(items)`
pub oldest_first : List BackupFileInfo → List BackupFileInfo
oldest_first [] = []
oldest_first (i ∷ is) = oldest_first is ++ i ∷ []

abbrev pub member : List Text → Text → Bool
member names name = any (text_beq name) names

-- The loop that collects candidates until `enough` bytes are reclaimed.
pub collect : (ℕ → Bool) → List Text → ℕ → List BackupFileInfo → List BackupFileInfo × ℕ
collect enough protected reclaimable [] = ([], reclaimable)
collect enough protected reclaimable (i ∷ is) =
    let skipped = collect enough protected reclaimable is in
    let more = collect enough protected (reclaimable + i.size_bytes) is in
    if member protected i.filename
    then skipped
    else if enough (reclaimable + i.size_bytes)
    then (i ∷ [], reclaimable + i.size_bytes)
    else (i ∷ more.0, more.1)

-- the loop that deletes them; a name that is refused ends it
pub unlink_all : List BackupFileInfo → Action (Unit {0})
unlink_all [] = return tt
unlink_all (i ∷ is) = do unlink_backup i.filename; unlink_all is

-- The test at the head of the loop reads only the total, which the loop leaves alone.
pub enforce_storage_limit : ℕ → ℤ → List Text → Action (Unit {0})
unfolding collect unlink_all list_backups oldest_first
enforce_storage_limit now storage_limit protected = do
  raise_if (leb_ℤ storage_limit (pos 0)) value_error
  let limit = pos_part storage_limit
  items ← list_backups now
  let total = total_bytes items
  let chosen =
      if leb total limit
      then ([], 0)
      else collect (λ r. leb total (limit + r)) protected 0 (oldest_first items)
  raise_if (ltb (limit + chosen.1) total) value_error
  unlink_all chosen.0
  raise_if (ltb (limit + total_bytes chosen.0) total) value_error

pub make_room_for_upload : ℕ → ℤ → ℕ → List Text → Action (Unit {0})
unfolding collect unlink_all list_backups oldest_first
make_room_for_upload now storage_limit incoming protected = do
  raise_if (leb_ℤ storage_limit (pos 0)) value_error
  let limit = pos_part storage_limit
  raise_if (ltb limit incoming) value_error
  items ← list_backups now
  let needed = total_bytes items + incoming
  if leb needed limit then return tt else do
    let chosen = collect (λ r. leb needed (limit + r)) protected 0 (oldest_first items)
    raise_if (ltb (limit + chosen.1) needed) value_error
    unlink_all chosen.0
    raise_if (ltb (limit + total_bytes chosen.0) needed) runtime_error

abbrev pub drop_infos : ℕ → List BackupFileInfo → List BackupFileInfo
drop_infos zero is = is
drop_infos (suc n) [] = []
drop_infos (suc n) (i ∷ is) = drop_infos n is

unfoldable pub prune_backups : ℕ → ℤ → ℤ → List Text → Action (Unit {0})
unfolding unlink_all list_backups enforce_storage_limit
prune_backups now retention_count storage_limit protected = do
  items ← list_backups now
  unlink_all (drop_infos (pos_part retention_count) items)
  enforce_storage_limit now storage_limit protected
