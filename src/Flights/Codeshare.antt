-- ===== src/Flights/Codeshare.antt =====
-- `_deduplicate_codeshare_flights` and `_unique_text_values`.
use kor_travel_transport.Prelude.{
  ◌≡◌, refl, sym, ap, ap₂, ◌∙◌, Bool, true, false, List, [], ◌∷◌, ◌++◌, arith, map, any, count,
  ◌||◌, if-false, Bool-cases, inl, inr, All, All-imp, All-both, or-cases,
}
use kor_travel_transport.Prelude.Dict.{Dict, values}
use kor_travel_transport.Prelude.Chars.{
  Text, strip, text_beq, text_beq_self, text_beq_sym, text_beq_cong,
}
use kor_travel_transport.Prelude.Sort.{sorted, any-sorted}
use kor_travel_transport.Series.Lots.{values_of, grouped-whole, grouped-once, values_of-own}
use kor_travel_transport.Flights.{
  Flight, Merged, Key, key_of, key_beq, key_beq_iff, key_eq, groups_of, merge_group, merge_groups,
  unique_texts, number_before, deduplicate_codeshare_flights,
}

-- the text stands among the numbers of a row
abbrev pub shows : Text → Merged → Bool
shows n m = any (λ y. text_beq y n) m.codeshare_flight_numbers

abbrev has_number : Text → Flight → Bool
has_number n f = text_beq (strip f.flight_number) n

any_alike :
    (a b : Text) (seen : List Text)
    → text_beq a b ≡ true
    → any (λ y. text_beq y a) seen ≡ any (λ y. text_beq y b) seen
any_alike a b [] h = refl
any_alike a b (y ∷ ys) h =
    ap₂ (λ p q. p || q) (text_beq_sym y a ∙ text_beq_cong a b y h ∙ text_beq_sym b y)
      (any_alike a b ys h)

ground_or : {a b : Bool} → a ≡ false → (a || b) ≡ true → b ≡ true
ground_or h k = ground arith

-- a text that is not blank stays, once it is there
unique_texts-any :
    (n : Text) (seen xs : List Text)
    → text_beq n [] ≡ false
    → any (λ x. text_beq (strip x) n) xs ≡ true
    → (any (λ y. text_beq y n) seen || any (λ y. text_beq y n) (unique_texts seen xs)) ≡ true
unfolding unique_texts
unique_texts-any n seen [] full h = cc
unique_texts-any n seen (x ∷ xs) full h = elim (Bool-cases (text_beq (strip x) n)) [
  | inl same ↦
      let there = any_alike (strip x) n seen same in
      let blank = text_beq_cong (strip x) n [] same ∙ full in ground (arith, same, there, blank)
  | inr other ↦
      let left = ground_or other h in
      let skipped = unique_texts-any n seen xs full left in
      let kept = unique_texts-any n (strip x ∷ seen) xs full left in
      ground (arith, other, skipped, kept)
]

any-numbers :
    (n : Text) (fs : List Flight)
    → any (has_number n) fs ≡ true
    → any (λ x. text_beq (strip x) n) (map (λ (f : Flight). f.flight_number) fs) ≡ true
any-numbers n [] h = h
any-numbers n (f ∷ fs) h = ground (arith, h, any-numbers n fs)

merge_group-shows :
    (n : Text) (g : List Flight)
    → text_beq n [] ≡ false
    → any (has_number n) g ≡ true
    → any (shows n) (merge_group g) ≡ true
unfolding merge_group
merge_group-shows n [] full h = cc
merge_group-shows n (f ∷ []) full h = ground (arith, h)
merge_group-shows n (f ∷ g ∷ fs) full h =
    ap (λ b. b || false)
      (unique_texts-any n []
        (map (λ (x : Flight). x.flight_number) (sorted number_before (f ∷ g ∷ fs))) full
        (any-numbers n (sorted number_before (f ∷ g ∷ fs))
          (any-sorted number_before (has_number n) (f ∷ g ∷ fs) ∙ h)))

merge_groups-append :
    (p : Merged → Bool) (xs ys : List Merged) → any p xs ≡ true → any p (xs ++ ys) ≡ true
merge_groups-append p [] ys h = cc
merge_groups-append p (x ∷ xs) ys h = elim (or-cases (p x) (any p xs) h) [
  | inl now ↦ ground (arith, now)
  | inr later ↦ let rest = merge_groups-append p xs ys later in ground (arith, rest)
]

append-later : (p : Merged → Bool) (xs ys : List Merged) → any p ys ≡ true → any p (xs ++ ys) ≡ true
append-later p [] ys h = h
append-later p (x ∷ xs) ys h = let rest = append-later p xs ys h in ground (arith, rest)

-- the group of a key shows the number that one of its flights has
merge_groups-shows :
    (n : Text) (k : Key) (d : Dict Key (List Flight))
    → text_beq n [] ≡ false
    → All (λ (p : Key × List Flight). key_beq p.0 k ≡ true → any (has_number n) p.1 ≡ true) d
    → count (λ (p : Key × List Flight). key_beq p.0 k) d ≡ 1
    → any (shows n) (merge_groups (values d)) ≡ true
merge_groups-shows n k [] full h one = absurd (omega (arith, one))
merge_groups-shows n k ((j, g) ∷ d) full h one = elim (Bool-cases (key_beq j k)) [
  | inl same ↦
      merge_groups-append (shows n) (merge_group g) (merge_groups (values d))
        (merge_group-shows n g full (h.0 same))
  | inr other ↦
      append-later (shows n) (merge_group g) (merge_groups (values d))
        (merge_groups-shows n k d full h.1 (sym (if-false _ _ other) ∙ one))
]

-- No flight is lost: each flight number of the input that is not blank is one of the codeshare numbers
-- of a row of the result.
pub deduplicate_codeshare_flights-shows :
    (items : List Flight)
    → All
        (λ f.
          (text_beq (strip f.flight_number) []
            || any (shows (strip f.flight_number)) (deduplicate_codeshare_flights items))
          ≡ true)
        items
unfolding deduplicate_codeshare_flights groups_of
deduplicate_codeshare_flights-shows items =
    All-both
      (λ f.
        any (has_number (strip f.flight_number))
          (values_of key_of (λ (x : Flight). x) (key_of f) items)
        ≡ true)
      (λ f. count (λ (p : Key × List Flight). key_beq p.0 (key_of f)) (groups_of items) ≡ 1)
      (λ f.
        (text_beq (strip f.flight_number) []
          || any (shows (strip f.flight_number)) (deduplicate_codeshare_flights items))
        ≡ true)
      (λ f own one. elim (Bool-cases (text_beq (strip f.flight_number) [])) [
        | inl blank ↦ ground (arith, blank)
        | inr full ↦ or_true _ (
            merge_groups-shows (strip f.flight_number) (key_of f) (groups_of items) full
              (owned f own) one)
      ])
      items
      (values_of-own key_of (λ (x : Flight). x) (λ f. has_number (strip f.flight_number))
        (λ f. text_beq_self (strip f.flight_number)) items)
      (grouped-once key_of (λ (x : Flight). x) items)
  where
    or_true : (a : Bool) {b : Bool} → b ≡ true → (a || b) ≡ true
    or_true a h = ground arith

    owned :
        (f : Flight)
        → any
            (has_number (strip f.flight_number))
            (values_of key_of (λ (x : Flight). x) (key_of f) items)
          ≡ true
        → All
            (λ (p : Key × List Flight).
              key_beq p.0 (key_of f) ≡ true → any (has_number (strip f.flight_number)) p.1 ≡ true)
            (groups_of items)
    owned f own =
        All-imp (λ (p : Key × List Flight). p.1 ≡ values_of key_of (λ (x : Flight). x) p.0 items)
          (λ (p : Key × List Flight).
            key_beq p.0 (key_of f) ≡ true → any (has_number (strip f.flight_number)) p.1 ≡ true)
          (λ p whole same.
            ap (any (has_number (strip f.flight_number))) (
              whole
              ∙ ap (λ k. values_of key_of (λ (x : Flight). x) k items)
                  ((key_beq_iff p.0 (key_of f)).0 same))
            ∙ own)
          (groups_of items) (grouped-whole key_of (λ (x : Flight). x) items)
