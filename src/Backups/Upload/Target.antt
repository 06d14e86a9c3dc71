-- ===== src/Backups/Upload/Target.antt =====
-- The names of uploaded backups.
use kor_travel_transport.Prelude.{
  ℕ, zero, suc, ◌≡◌, refl, ap, sym, ◌∙◌, Bool, true, some, [], ◌∷◌, ◌++◌, map, take, all, length,
  arith, leb, ◌==◌, ◌&&◌, ◌||◌, append_assoc, if-cases,
}
use kor_travel_transport.Prelude.Chars.{Text, codes, text_beq}
use kor_travel_transport.Backups.{
  is_word, ends_word, ends_backup, is_stamped, after, prefix, is_backup_name,
}
use kor_travel_transport.Backups.Upload.{safe_char, safe_stem, upload_name}

-- `strftime("%Y%m%dT%H%M%SZ")`, without its last letter
abbrev pub is_stamp_char : ℕ → Bool
is_stamp_char c = (leb b'0' c && leb c b'9') || c == b'T'

after-prefix : (s : Text) → after prefix (prefix ++ s) ≡ some s
after-prefix s = refl

ends_word-words : (ws : Text) → all is_word ws ≡ true → ends_word (ws ++ codes ".dump") ≡ true
unfolding text_beq
ends_word-words [] h = refl
ends_word-words (w ∷ ws) h =
    let first : is_word w ≡ true = ground (arith, h) in
    let others : all is_word ws ≡ true = ground (arith, h) in rw first (ends_word-words ws others)

is_stamped-stamp :
    (ds : Text) (s : Text)
    → all is_stamp_char ds ≡ true
    → is_stamped (length ds) (ds ++ b'Z' ∷ s) ≡ ends_backup s
is_stamped-stamp [] s h = refl
is_stamped-stamp (d ∷ ds) s h =
    let first : is_stamp_char d ≡ true = ground (arith, h) in
    let others : all is_stamp_char ds ≡ true = ground (arith, h) in
    rw first (is_stamped-stamp ds s others)

safe_char-word : (c : ℕ) → is_word (safe_char c) ≡ true
safe_char-word c = if-cases (λ x. is_word x ≡ true) (is_word c) (λ word. word) (λ _. refl)

safe-words : (n : ℕ) (s : Text) → all is_word (take n (map safe_char s)) ≡ true
safe-words zero s = refl
safe-words (suc n) [] = refl
safe-words (suc n) (c ∷ s) = rw (safe_char-word c) (safe-words n s)

ends_backup-stem : (stem : Text) → ends_backup (b'-' ∷ (safe_stem stem ++ codes ".dump")) ≡ true
unfolding text_beq
ends_backup-stem [] = refl
ends_backup-stem (c ∷ s) =
    rw (safe_char-word c) (ends_word-words (take 47 (map safe_char s)) (safe-words 47 s))

-- With a stamp of fifteen digits or letters T, every upload gets a name of a backup, whatever the
-- name is that the client sends.
pub upload_name-valid :
    (ds stem : Text)
    → all is_stamp_char ds ≡ true
    → length ds ≡ 15
    → is_backup_name (upload_name (ds ++ b'Z' ∷ []) stem) ≡ true
unfolding is_backup_name
upload_name-valid ds stem h n =
    let s = b'-' ∷ (safe_stem stem ++ codes ".dump") in
    ap (λ t. is_stamped 15 t) (append_assoc ds (b'Z' ∷ []) s)
    ∙ ap (λ k. is_stamped k (ds ++ b'Z' ∷ s)) (sym n)
    ∙ is_stamped-stamp ds s h
    ∙ ends_backup-stem stem
