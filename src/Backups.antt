-- ===== src/Backups.antt =====
-- backend/app/services/backup_restore.py: the directory of database backups and its storage limit.
-- A directory is the list of its entries in the order in which `iterdir` gives them. Sizes are in
-- bytes, times in seconds. pg_dump, the clock, the disk and the suffix of uuid4 are arguments.
pub mod Storage
pub mod Upload
use kor_travel_transport.Prelude.{
  ℕ, zero, suc, ◌+◌, ◌-◌, ◌*◌, Bool, true, false, not, Option, none, some, List, [], ◌∷◌, ◌++◌, map,
  any, all, keep, take, ltb, leb, ◌==◌, ◌&&◌, ◌||◌, if◌then◌else◌, ℤ, pos, pos_part, leb_ℤ,
}
use kor_travel_transport.Prelude.Chars.{Text, codes, text_beq, or_text, backwards}
use kor_travel_transport.Prelude.Sort.{sorted}

abbrev pub max_backup_bytes : ℕ
max_backup_bytes = 2_147_483_648

abbrev pub staging_backup_max_age_seconds : ℕ
staging_backup_max_age_seconds = 3600

pub record BackupFileInfo : Type 0 where
  pub filename : Text
  pub size_bytes : ℕ
  pub created_at : ℕ

-- what an entry is; a symlink may be dangling, its target not there
pub data Kind : Type 0 where
  regular symlink dangling other : Kind

pub record Entry : Type 0 where
  pub info : BackupFileInfo
  pub kind : Kind

abbrev pub Directory : Type 0
Directory = List Entry

-- how a call ends; the directory comes back after a raise too
pub data Result (A : Type 0) : Type 0 where
  ok : A → Result A
  value_error : Result A
  runtime_error : Result A
  file_not_found : Result A

abbrev pub Action : Type 0 → Type 0
Action A = Directory → Result A × Directory

-- what follows a call is left out where the call raised
abbrev pub then_do :
    {A : Type 0} {B : Type 0} → Result A × Directory → (A → Action B) → Result B × Directory
then_do (ok a, d) f = f a d
then_do (value_error, d) f = (value_error, d)
then_do (runtime_error, d) f = (runtime_error, d)
then_do (file_not_found, d) f = (file_not_found, d)

infixl 5 ◌>>=◌ ◌>>◌
abbrev pub ◌>>=◌ : {A B : Type 0} → Action A → (A → Action B) → Action B
◌>>=◌ m f d = then_do (m d) f

abbrev pub ◌>>◌ : {A B : Type 0} → Action A → Action B → Action B
m >> k = m >>= λ _. k

abbrev pub return : {A : Type 0} → A → Action A
return a d = (ok a, d)

-- raises where the test holds
abbrev pub raise_if : Bool → Result (Unit {0}) → Action (Unit {0})
raise_if c failure d = (if c then failure else ok tt, d)

abbrev pub is_word : ℕ → Bool
is_word c =
    (leb b'A' c && leb c b'Z')
    || (leb b'a' c && leb c b'z')
    || (leb b'0' c && leb c b'9')
    || c == b'_'
    || c == b'-'

-- the text after a prefix
abbrev pub after : Text → Text → Option Text
after [] s = some s
after (p ∷ ps) [] = none
after (p ∷ ps) (c ∷ s) = let rest = after ps s in if p == c then rest else none

-- `[A-Za-z0-9_-]*\.dump` in full
abbrev pub ends_word : Text → Bool
ends_word [] = false
ends_word (c ∷ s) =
    let rest = ends_word s in if is_word c then rest else text_beq (c ∷ s) (codes ".dump")

-- `(?:-[A-Za-z0-9_-]+)?\.dump` in full
abbrev pub ends_backup : Text → Bool
ends_backup (c ∷ d ∷ s) =
    if c == b'-' then is_word d && ends_word s else text_beq (c ∷ d ∷ s) (codes ".dump")
ends_backup _ = false

-- `[0-9T]{n}Z` and what follows it
abbrev pub is_stamped : ℕ → Text → Bool
is_stamped zero (c ∷ s) = c == b'Z' && ends_backup s
is_stamped (suc n) (c ∷ s) = ((leb b'0' c && leb c b'9') || c == b'T') && is_stamped n s
is_stamped _ [] = false

abbrev pub is_stamped_after : Option Text → Bool
is_stamped_after none = false
is_stamped_after (some s) = is_stamped 15 s

abbrev pub prefix : Text
prefix = codes "kor-travel-transport-"

-- `BACKUP_NAME_PATTERN.fullmatch(filename)`
unfoldable pub is_backup_name : Text → Bool
unfolding text_beq
is_backup_name name = is_stamped_after (after prefix name)

abbrev pub remove : Text → Directory → Directory
remove name d = keep (λ e. not (text_beq e.info.filename name)) d

abbrev pub entry : Text → Directory → Option Entry
entry name [] = none
entry name (e ∷ d) =
    let rest = entry name d in if text_beq e.info.filename name then some e else rest

-- `_backup_path(...).unlink(missing_ok=True)`; the names that pass have no separator
pub unlink_backup : Text → Action (Unit {0})
unlink_backup name d = if is_backup_name name then (ok tt, remove name d) else (value_error, d)

abbrev pub is_symlink : Kind → Bool
is_symlink symlink = true
is_symlink dangling = true
is_symlink _ = false

abbrev pub is_file : Kind → Bool
is_file regular = true
is_file _ = false

abbrev pub is_there : Kind → Bool
is_there dangling = false
is_there _ = true

-- `path.suffix == ".dump"` of a name
abbrev pub has_dump_suffix : Text → Bool
has_dump_suffix name = elim (after (backwards (codes ".dump")) (backwards name)) [
  | none ↦ false
  | some [] ↦ false
  | some (c ∷ s) ↦ true
]

abbrev pub is_some {ℓ} : {A : Type ℓ} → Option A → Bool
is_some none = false
is_some (some a) = true

-- an interrupted backup or upload of more than an hour ago
pub is_stale : ℕ → Entry → Bool
unfolding backwards
is_stale now e =
    not (is_symlink e.kind)
    && is_some (after (b'.' ∷ prefix) e.info.filename)
    && has_dump_suffix e.info.filename
    && ltb (e.info.created_at + staging_backup_max_age_seconds) now

pub cleanup_staging_backups : ℕ → Action (Unit {0})
cleanup_staging_backups now d = (ok tt, keep (λ e. not (is_stale now e)) d)
