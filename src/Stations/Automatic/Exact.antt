-- ===== src/Stations/Automatic/Exact.antt =====
-- No place is found twice by its names.
use kor_travel_transport.Prelude.{
  count-le, ℕ, ◌+◌, ◌≤◌, ◌<◌, ◌≡◌, refl, sym, ap, ◌∙◌, subst, Bool, true, false, Option, none, some,
  List, [], ◌∷◌, map, any, count, arith, ◌==◌, ◌&&◌, if◌then◌else◌, if-true, if-false, Bool-cases,
  Option-cases, inl, inr,
}
use kor_travel_transport.Prelude.Chars.{Text, text_beq, text_beq_sym, text_beq_iff}
use kor_travel_transport.Stations.{
  KricStation, RailStation, code_eq, MatchKey, kric_code_line, source_names, match_beq,
  code_match_key, place_match_key,
}
use kor_travel_transport.Stations.Automatic.{code_name_count, exact_of, number_of}
use kor_travel_transport.Stations.Automatic.Found.{opt_is, first, sole-keep, sole-first}

match_beq_eq : (a b : MatchKey) → match_beq a b ≡ true → a ≡ b
match_beq_eq (kric_code_line a) (kric_code_line b) h = ap kric_code_line ((text_beq_iff a b).0 h)
match_beq_eq (kric_code_line a) (source_names d e f) h = cc
match_beq_eq (source_names a b c) (kric_code_line d) h = cc
match_beq_eq (source_names a b c) (source_names d e f) h =
    let one : text_beq a d ≡ true = ground (arith, h) in
    let two : text_beq b e ≡ true = ground (arith, h) in
    let three : text_beq c f ≡ true = ground (arith, h) in
    cc ((text_beq_iff a d).0 one, (text_beq_iff b e).0 two, (text_beq_iff c f).0 three)

match_beq_self : (a : MatchKey) → match_beq a a ≡ true
match_beq_self (kric_code_line a) = (text_beq_iff a a).1 refl
match_beq_self (source_names a b c) =
    ground (arith, (text_beq_iff a a).1 refl, (text_beq_iff b b).1 refl, (text_beq_iff c c).1 refl)

module _ {ℓ} {A : Type ℓ} where
  count-and :
      (p : A → Bool) (b : Bool) (xs : List A)
      → count (λ x. p x && b) xs ≤ (if b then count p xs else 0)
  count-and p b [] = ground arith
  count-and p b (x ∷ xs) = ground (arith, count-and p b xs)

  pub count_witness :
      (P : Type 0) (p : A → Bool) (xs : List A) → 0 < count p xs → ((x : A) → p x ≡ true → P) → P
  count_witness P p [] h k = absurd (omega arith)
  count_witness P p (x ∷ xs) h k = elim (Bool-cases (p x)) [
    | inl holds ↦ k x holds
    | inr fails ↦ count_witness P p xs (ground (arith, fails, h)) k
  ]

pub zero_add : (n : ℕ) → 0 + n ≡ n
zero_add n = omega arith

pub absent-count :
    (t : Text) (ps : List RailStation)
    → any (text_beq t) (map (λ p. p.identity_key) ps) ≡ false
    → count (λ p. text_beq p.identity_key t) ps ≡ 0
absent-count t [] h = refl
absent-count t (p ∷ ps) h = ground (arith, h, text_beq_sym t p.identity_key, absent-count t ps)

module _ (nfkc : Text → Text) (codes : List KricStation) (places : List RailStation)
    (t : Text) where
  abbrev pub is_t : RailStation → Bool
  is_t p = text_beq p.identity_key t

  abbrev pub exactly : KricStation → Bool
  exactly r = opt_is is_t (exact_of nfkc codes places r)

  abbrev pub by_name : KricStation → Bool
  by_name r = opt_is is_t (number_of nfkc codes places r)

  -- a row that has the key of a place, where no other row has it
  abbrev keyed : Option RailStation → KricStation → Bool
  keyed none r = false
  keyed (some p) r =
      match_beq (code_match_key r) (place_match_key p)
      && (code_name_count nfkc codes places (place_match_key p) == 1)

  exactly-keyed :
      count is_t places ≤ 1
      → (r : KricStation) → exactly r ≡ true
      → keyed (first is_t places) r ≡ true
  exactly-keyed once r h = elim (Option-cases (exact_of nfkc codes places r)) [
    | inl missing ↦ cc (ap (opt_is is_t) (sym missing) ∙ h)
    | inr (p, found) ↦
        elim (Bool-cases (code_name_count nfkc codes places (code_match_key r) == 1)) [
          | inl unique ↦
              let only = sym (if-true _ _ unique) ∙ found in
              let mine : is_t p ≡ true = ap (opt_is is_t) (sym found) ∙ h in
              let q : RailStation → Bool = λ p. match_beq (place_match_key p) (code_match_key r) in
              let same =
                match_beq_eq (place_match_key p) (code_match_key r) (sole-keep q places p only) in
              let at = sole-first q is_t places p only mine once in
              ap (λ o. keyed o r) at
              ∙ subst
                  (λ k.
                    (match_beq (code_match_key r) k && (code_name_count nfkc codes places k == 1))
                    ≡ true)
                  (sym same) (ground (arith, match_beq_self (code_match_key r), unique))
          | inr several ↦ cc (sym (if-false _ _ several) ∙ found)
        ]
  ]

  keyed-count : (o : Option RailStation) → count (keyed o) codes ≤ 1
  keyed-count none = no_count codes
    where
      no_count : (rs : List KricStation) → count (λ (r : KricStation). false) rs ≤ 1
      no_count [] = omega arith
      no_count (r ∷ rs) = no_count rs
  keyed-count (some p) = ground (
    arith,
    count-and (λ r. match_beq (code_match_key r) (place_match_key p))
        (code_name_count nfkc codes places (place_match_key p) == 1) codes,
  )

  pub exactly-once : count is_t places ≤ 1 → count exactly codes ≤ 1
  exactly-once once = omega (
    arith,
    count-le exactly (keyed (first is_t places)) (exactly-keyed once) codes,
    keyed-count (first is_t places),
  )
