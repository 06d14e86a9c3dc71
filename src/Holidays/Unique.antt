-- ===== src/Holidays/Unique.antt =====
-- `_deduplicate_holidays`.
use kor_travel_transport.Prelude.{
  ◌≡◌, refl, sym, ap, ◌∙◌, Bool, true, List, [], ◌∷◌, arith, ◌||◌, if◌then◌else◌, count, any,
  Bool-cases, inl, inr, ltb, ap₂,
}
use kor_travel_transport.Prelude.Chars.{text_beq, text_beq_self, text_beq_sym, text_beq_cong}
use kor_travel_transport.Prelude.Sort.{sorted, count-sorted}
use kor_travel_transport.Holidays.{
  HolidayItem, same_key, item_before, unique_items, deduplicate_holidays,
}

same_key_self : (a : HolidayItem) → same_key a a ≡ true
same_key_self a = ground (arith, text_beq_self a.name)

same_key_cong : (a b c : HolidayItem) → same_key a b ≡ true → same_key a c ≡ same_key b c
same_key_cong a b c h =
    let tail : text_beq a.name b.name ≡ true = ground arith in
    ground (arith, text_beq_cong a.name b.name c.name tail, h)

same_key_sym : (a b : HolidayItem) → same_key a b ≡ same_key b a
same_key_sym a b = ground (arith, text_beq_sym a.name b.name)

any_same :
    (a b : HolidayItem) (seen : List HolidayItem)
    → same_key a b ≡ true
    → any (λ y. same_key y a) seen ≡ any (λ y. same_key y b) seen
any_same a b [] h = refl
any_same a b (y ∷ ys) h =
    ap₂ (λ p q. p || q) (same_key_sym y a ∙ same_key_cong a b y h ∙ same_key_sym b y)
      (any_same a b ys h)

-- each key that was not seen and stands in the list is kept once
unique_items-count :
    (k : HolidayItem) (seen xs : List HolidayItem)
    → count (λ x. same_key x k) (unique_items seen xs)
      ≡ (if any (λ y. same_key y k) seen then 0 else if any (λ x. same_key x k) xs then 1 else 0)
unfolding unique_items
unique_items-count k seen [] = ground arith
unique_items-count k seen (x ∷ xs) =
    let skipped = unique_items-count k seen xs in
    let kept = unique_items-count k (x ∷ seen) xs in
    elim (Bool-cases (same_key x k)) [
      | inl same ↦ let both = any_same x k seen same in ground (arith, same, both, skipped, kept)
      | inr other ↦ ground (arith, other, skipped, kept)
    ]

any-count : (p : HolidayItem → Bool) (xs : List HolidayItem) → any p xs ≡ ltb 0 (count p xs)
any-count p [] = refl
any-count p (x ∷ xs) = ground (arith, any-count p xs)

-- Of the items with one date and name exactly one is kept, and none of a date and name that no item
-- has.
pub deduplicate_holidays-count :
    (k : HolidayItem) (items : List HolidayItem)
    → count (λ x. same_key x k) (deduplicate_holidays items)
      ≡ (if any (λ x. same_key x k) items then 1 else 0)
unfolding deduplicate_holidays
deduplicate_holidays-count k items =
    unique_items-count k [] (sorted item_before items)
    ∙ ap (λ b. if b then 1 else 0)
        (any-count (λ x. same_key x k) (sorted item_before items)
          ∙ ap (ltb 0) (count-sorted item_before (λ x. same_key x k) items)
          ∙ sym (any-count (λ x. same_key x k) items))
