-- ===== src/Holidays/Collapse.antt =====
-- `collapse_holidays_by_date`: the names of a date on one line. A set of names is the list of its
-- texts, in the order in which they came.
pub mod Names
use kor_travel_transport.Prelude.{
  ◌≡◌, ◌↔◌, ◌∙◌, ap, sym, refl, Bool-cases, inl, inr, Bool, true, Option, none, some, ℕ, List, [],
  ◌∷◌, ◌++◌, arith, ◌+◌, ◌&&◌, ◌||◌, ◌==◌, if◌then◌else◌, count, any, map,
}
use kor_travel_transport.Prelude.Dict.{Eq, Dict, get, put, get-put}
use kor_travel_transport.Prelude.Chars.{Text, text_beq, text_ltb, text_beq_iff}
use kor_travel_transport.Prelude.Sort.{sorted}
use kor_travel_transport.Holidays.{Date, HolidayItem, date_beq}

pub date_beq_iff : (a b : Date) → (date_beq a b ≡ true) ↔ (a ≡ b)
date_beq_iff a b = (
  λ h.
      let y : a.year ≡ b.year = ground (arith, h) in
      let m : a.month ≡ b.month = ground (arith, h) in
      let d : a.day ≡ b.day = ground (arith, h) in cc,
  λ h. rw h (ground arith),
)

instance abbrev pub date_eq : Eq Date
date_eq = record { beq = date_beq; beq_iff = date_beq_iff }

-- `names.add(name)`
abbrev pub add_name : List Text → Text → List Text
add_name names name = if any (text_beq name) names then names else names ++ name ∷ []

-- `setdefault(date, set())`
abbrev pub names_or : Option (List Text) → List Text
names_or none = []
names_or (some names) = names

-- the loop over the items
pub names_by_date : Dict Date (List Text) → List HolidayItem → Dict Date (List Text)
names_by_date d [] = d
names_by_date d (x ∷ xs) =
    names_by_date (put d x.local_date (add_name (names_or (get d x.local_date)) x.name)) xs

-- `" / ".join(names)`
abbrev pub join_names : List Text → Text
join_names [] = []
join_names (a ∷ []) = a
join_names (a ∷ b ∷ bs) = a ++ b' ' ∷ b'/' ∷ b' ' ∷ join_names (b ∷ bs)

abbrev pub collapsed_item : Date × List Text → HolidayItem
collapsed_item (date, names) = record {
  local_date = date;
  name = join_names (sorted text_ltb names);
  is_holiday = true;
}

pub collapse_holidays_by_date : List HolidayItem → List HolidayItem
unfolding names_by_date
collapse_holidays_by_date items = map collapsed_item (names_by_date [] items)

-- how many entries have a date
abbrev entries : Date → Dict Date (List Text) → ℕ
entries k d = count (λ e. date_beq e.0 k) d

entries-put :
    (k j : Date) (d : Dict Date (List Text)) (v : List Text)
    → entries k (put d j v) ≡ entries k d + (if date_beq j k && entries k d == 0 then 1 else 0)
unfolding put
entries-put k j [] v = ground arith
entries-put k j ((i, w) ∷ d) v = ground (arith, entries-put k j d v)

entries-names_by_date :
    (k : Date) (d : Dict Date (List Text)) (xs : List HolidayItem)
    → entries k (names_by_date d xs)
      ≡ entries k d + (if entries k d == 0 && any (λ x. date_beq x.local_date k) xs then 1 else 0)
unfolding names_by_date
entries-names_by_date k d [] = ground arith
entries-names_by_date k d (x ∷ xs) =
    let names = add_name (names_or (get d x.local_date)) x.name in
    let here = entries-put k x.local_date d names in
    let rest = entries-names_by_date k (put d x.local_date names) xs in ground (arith, here, rest)

entries-map :
    (k : Date) (d : Dict Date (List Text))
    → count (λ x. date_beq x.local_date k) (map collapsed_item d) ≡ entries k d
entries-map k [] = refl
entries-map k (e ∷ d) = ground (arith, entries-map k d)

pub collapse_holidays_by_date-count :
    (k : Date) (items : List HolidayItem)
    → count (λ x. date_beq x.local_date k) (collapse_holidays_by_date items)
      ≡ (if any (λ x. date_beq x.local_date k) items then 1 else 0)
unfolding collapse_holidays_by_date
collapse_holidays_by_date-count k items =
    let inside = entries-map k (names_by_date [] items) in
    let all = entries-names_by_date k [] items in ground (arith, inside, all)

any-snoc :
    (n : Text) (names : List Text) (name : Text)
    → any (text_beq n) (names ++ name ∷ []) ≡ (any (text_beq n) names || text_beq n name)
any-snoc n [] name = ground arith
any-snoc n (m ∷ ms) name = ground (arith, any-snoc n ms name)

any-beq :
    (n name : Text) (names : List Text)
    → text_beq n name ≡ true
    → any (text_beq name) names ≡ any (text_beq n) names
any-beq n name names h = ap (λ t. any (text_beq t) names) (sym ((text_beq_iff n name).0 h))

any-add_name :
    (n : Text) (names : List Text) (name : Text)
    → any (text_beq n) (add_name names name) ≡ (any (text_beq n) names || text_beq n name)
any-add_name n names name = elim (Bool-cases (text_beq n name)) [
  | inl same ↦
      let alike = any-beq n name names same in ground (arith, any-snoc n names name, alike, same)
  | inr other ↦ ground (arith, any-snoc n names name, other)
]

-- what a date has after the name of an item was put in the set of its own date
has-put :
    (n : Text) (j k : Date) (d : Dict Date (List Text)) (name : Text)
    → any (text_beq n) (names_or (get (put d j (add_name (names_or (get d j)) name)) k))
      ≡ (any (text_beq n) (names_or (get d k)) || (date_beq j k && text_beq n name))
has-put n j k d name =
    let has : Option (List Text) → Bool = λ o. any (text_beq n) (names_or o) in
    let names = add_name (names_or (get d j)) name in
    ap has (get-put d j k names) ∙ elim (Bool-cases (date_beq j k)) [
      | inl same ↦ rw same (
          any-add_name n (names_or (get d j)) name
          ∙ ap (λ i. has (get d i) || text_beq n name) ((date_beq_iff j k).0 same))
      | inr other ↦ rw other (ground arith)
    ]

-- the set of a date has the names that it had and those of the items of that date
pub names_by_date-any :
    (n : Text) (k : Date) (d : Dict Date (List Text)) (xs : List HolidayItem)
    → any (text_beq n) (names_or (get (names_by_date d xs) k)) ≡ (
        any (text_beq n) (names_or (get d k))
        || any (λ x. date_beq x.local_date k && text_beq n x.name) xs)
unfolding names_by_date
names_by_date-any n k d [] = ground arith
names_by_date-any n k d (x ∷ xs) =
    let names = add_name (names_or (get d x.local_date)) x.name in
    let rest = names_by_date-any n k (put d x.local_date names) xs in
    ground (arith, rest, has-put n x.local_date k d x.name)
