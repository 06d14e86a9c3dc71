-- ===== src/Holidays/Collapse/Names.antt =====
-- The names on the line of a date: all those of its items, each once, in the order of the alphabet.
use kor_travel_transport.Prelude.{
  ◌≡◌, ◌≤◌, ◌∙◌, ap, sym, refl, subst, Bool-cases, inl, inr, Bool, Option, some, List, [], ◌∷◌,
  ◌++◌, ◌+◌, append-nil, arith, ◌&&◌, if◌then◌else◌, count, any, map, All, All-imp,
}
use kor_travel_transport.Prelude.Dict.{
  Dict, get, put, get-put, NodupKeys, put-NodupKeys, get-entries,
}
use kor_travel_transport.Prelude.Chars.{Text, text_beq, text_ltb, text_beq_iff, text_ltb_asym}
use kor_travel_transport.Prelude.Sort.{sorted, IsSorted, sorted-IsSorted, count-sorted}
use kor_travel_transport.Holidays.{Date, HolidayItem, date_beq}
use kor_travel_transport.Holidays.Collapse.{
  date_eq, add_name, names_or, names_by_date, names_by_date-any, join_names, collapsed_item,
  collapse_holidays_by_date, collapse_holidays_by_date-count,
}

-- the names after the first, each behind its separator
abbrev pub following : List Text → Text
following [] = []
following (b ∷ bs) = b' ' ∷ b'/' ∷ b' ' ∷ (b ++ following bs)

abbrev pub spelled : List Text → Text
spelled [] = []
spelled (a ∷ bs) = a ++ following bs

join_names-spelled : (names : List Text) → join_names names ≡ spelled names
join_names-spelled [] = refl
join_names-spelled (a ∷ []) = sym (append-nil a)
join_names-spelled (a ∷ b ∷ bs) =
    ap (λ t. a ++ b' ' ∷ b'/' ∷ b' ' ∷ t) (join_names-spelled (b ∷ bs))

-- What an item of the result says of the items: its name is that of names in order, which are those
-- of the items of its date, each once.
abbrev pub IsJoined : List HolidayItem → HolidayItem → Type 0
IsJoined items y =
    (names : List Text) × (y.name ≡ spelled names)
    × (IsSorted text_ltb names
        × ((n : Text)
            → count (text_beq n) names ≡ (
                if any (λ x. date_beq x.local_date y.local_date && text_beq n x.name) items
                then 1
                else 0)))

module _ (p : Text → Bool) where
  count-any :
      (names : List Text) → count p names ≤ 1 → count p names ≡ (if any p names then 1 else 0)
  count-any [] h = refl
  count-any (m ∷ ms) h = ground (arith, h, count-any ms)

  count-snoc :
      (names : List Text) (name : Text)
      → count p (names ++ name ∷ []) ≡ count p names + (if p name then 1 else 0)
  count-snoc [] name = ground arith
  count-snoc (m ∷ ms) name = ground (arith, count-snoc ms name)

-- no set has a name twice
count-add_name :
    (n : Text) (names : List Text) (name : Text)
    → count (text_beq n) names ≤ 1
    → count (text_beq n) (add_name names name) ≤ 1
count-add_name n names name h = elim (Bool-cases (text_beq n name)) [
  | inl same ↦
      let alike : any (text_beq name) names ≡ any (text_beq n) names =
        ap (λ t. any (text_beq t) names) (sym ((text_beq_iff n name).0 same)) in
      ground
        (arith, h, alike, same, count-any (text_beq n) names h, count-snoc (text_beq n) names name)
  | inr other ↦ ground (arith, h, other, count-snoc (text_beq n) names name)
]

abbrev Once : Dict Date (List Text) → Type 0
Once d = (k : Date) (n : Text) → count (text_beq n) (names_or (get d k)) ≤ 1

names_by_date-Once :
    (d : Dict Date (List Text)) (xs : List HolidayItem) → Once d → Once (names_by_date d xs)
unfolding names_by_date
names_by_date-Once d [] h = h
names_by_date-Once d (x ∷ xs) h =
    let names = add_name (names_or (get d x.local_date)) x.name in
    names_by_date-Once (put d x.local_date names) xs λ k n.
      let small : Option (List Text) → Type 0 = λ o. count (text_beq n) (names_or o) ≤ 1 in
      subst small (sym (get-put d x.local_date k names))
        (elim (Bool-cases (date_beq x.local_date k)) [
          | inl same ↦
              rw same (count-add_name n (names_or (get d x.local_date)) x.name (h x.local_date n))
          | inr other ↦ rw other (h k n)
        ])

names_by_date-NodupKeys :
    (d : Dict Date (List Text)) (xs : List HolidayItem)
    → NodupKeys d
    → NodupKeys (names_by_date d xs)
unfolding names_by_date
names_by_date-NodupKeys d [] h = h
names_by_date-NodupKeys d (x ∷ xs) h =
    let names = add_name (names_or (get d x.local_date)) x.name in
    names_by_date-NodupKeys (put d x.local_date names) xs (put-NodupKeys d x.local_date names h)

collapsed_item-IsJoined :
    (items : List HolidayItem) (e : Date × List Text)
    → get (names_by_date [] items) e.0 ≡ some e.1
    → IsJoined items (collapsed_item e)
unfolding get
collapsed_item-IsJoined items e h = (
  sorted text_ltb e.1,
  join_names-spelled (sorted text_ltb e.1),
  (
    sorted-IsSorted text_ltb text_ltb_asym e.1,
    λ n.
        let once : count (text_beq n) e.1 ≤ 1 =
          subst (λ o. count (text_beq n) (names_or o) ≤ 1) h
            (names_by_date-Once [] items (λ k m. omega arith) e.0 n) in
        let here : any (text_beq n) e.1
            ≡ any (λ x. date_beq x.local_date e.0 && text_beq n x.name) items =
          ap (λ o. any (text_beq n) (names_or o)) (sym h) ∙ names_by_date-any n e.0 [] items in
        count-sorted text_ltb (text_beq n) e.1
        ∙ count-any (text_beq n) e.1 once
        ∙ ap (λ (b : Bool). if b then 1 else 0) here,
  ),
)

All-map :
    (P : HolidayItem → Type 0) (d : Dict Date (List Text))
    → All (λ e. P (collapsed_item e)) d
    → All P (map collapsed_item d)
All-map P [] h = tt
All-map P (e ∷ d) h = (h.0, All-map P d h.1)

-- The result has exactly one item for each date that an item has, and none for any other date. The
-- name of an item of the result is that of all names of the items of its date, each once, in order and
-- with a separator between any two, and of no other name.
pub collapse_holidays_by_date-names :
    (k : Date) (items : List HolidayItem)
    → (count (λ x. date_beq x.local_date k) (collapse_holidays_by_date items)
        ≡ (if any (λ x. date_beq x.local_date k) items then 1 else 0))
      × All (IsJoined items) (collapse_holidays_by_date items)
unfolding collapse_holidays_by_date
collapse_holidays_by_date-names k items = (
  collapse_holidays_by_date-count k items,
  All-map (IsJoined items) (names_by_date [] items) (
      All-imp (λ e. get (names_by_date [] items) e.0 ≡ some e.1)
        (λ e. IsJoined items (collapsed_item e)) (collapsed_item-IsJoined items)
        (names_by_date [] items)
        (get-entries (names_by_date [] items) (names_by_date-NodupKeys [] items tt))),
)
