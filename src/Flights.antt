-- ===== src/Flights.antt =====
-- backend/app/services/flight_status.py: flights of an airport on a day. Codeshares become one row, and
-- what was fetched is kept for a while. Times are instants; a text that is missing is empty.
pub mod Codeshare
pub mod Times
pub mod Service
pub mod Items
use kor_travel_transport.Prelude.{
  ℕ, zero, suc, ◌+◌, ◌≡◌, ◌↔◌, arith, ==_iff, Bool, true, false, not, Option, none, some, List, [],
  ◌∷◌, ◌++◌, map, any, ltb, ◌==◌, ◌&&◌, ◌||◌, if◌then◌else◌, refl, sym, ap, ◌∙◌,
}
use kor_travel_transport.Prelude.Dict.{Eq, Dict, values}
use kor_travel_transport.Prelude.Chars.{Text, strip, text_beq, text_beq_iff, text_ltb}
use kor_travel_transport.Prelude.Sort.{sorted}
use kor_travel_transport.Series.{grouped}

-- `_codeshare_identity`
pub record Identity : Type 0 where
  pub airport : Text
  pub direction : Text
  pub scheduled : ℕ
  pub master_flight : Text

pub record Flight : Type 0 where
  pub airport_code : Text
  pub direction : Text
  pub flight_number : Text
  pub airline : Text
  pub scheduled_at : ℕ
  pub estimated_at : Option ℕ
  pub marker_at : ℕ
  pub origin_airport : Text
  pub destination_airport : Text
  pub status : Text
  pub line_type : Text
  pub codeshare_identity : Option Identity

-- The two kinds of keys; they differ, since one has a time where the other has a text.
pub data Key : Type 0 where
  by_identity : Identity → Key
  by_route : (direction : Text) (marker : ℕ) (origin destination : Text) → Key

abbrev pub identity_beq : Identity → Identity → Bool
identity_beq a b =
    text_beq a.airport b.airport
    && (text_beq a.direction b.direction
        && (a.scheduled == b.scheduled && text_beq a.master_flight b.master_flight))

abbrev pub key_beq : Key → Key → Bool
key_beq (by_identity a) (by_identity b) = identity_beq a b
key_beq (by_route d m o t) (by_route d' m' o' t') =
    text_beq d d' && (m == m' && (text_beq o o' && text_beq t t'))
key_beq _ _ = false

four_iff :
    {p q r s : Type 0} (a b c d : Bool)
    → (a ≡ true) ↔ p
    → (b ≡ true) ↔ q
    → (c ≡ true) ↔ r
    → (d ≡ true) ↔ s
    → ((a && (b && (c && d))) ≡ true) ↔ (p × q × r × s)
four_iff a b c d hp hq hr hs = (
  (λ h. (hp.0 (ground arith), hq.0 (ground arith), hr.0 (ground arith), hs.0 (ground arith))),
  (λ h. four_true (hp.1 h.0) (hq.1 h.1) (hr.1 h.2) (hs.1 h.3)),
)
  where
    four_true : a ≡ true → b ≡ true → c ≡ true → d ≡ true → (a && (b && (c && d))) ≡ true
    four_true x y z w = ground (arith, x, y, z, w)

identity_eq :
    (a b : Identity)
    → a.airport ≡ b.airport
    → a.direction ≡ b.direction
    → a.scheduled ≡ b.scheduled
    → a.master_flight ≡ b.master_flight
    → a ≡ b
identity_eq a b e f g h =
    λ i. record { airport = e i; direction = f i; scheduled = g i; master_flight = h i }

identity_beq_iff : (a b : Identity) → (identity_beq a b ≡ true) ↔ (a ≡ b)
identity_beq_iff a b =
    let all_four =
      four_iff (text_beq a.airport b.airport) (text_beq a.direction b.direction)
        (a.scheduled == b.scheduled) (text_beq a.master_flight b.master_flight)
        (text_beq_iff a.airport b.airport) (text_beq_iff a.direction b.direction)
        (==_iff a.scheduled b.scheduled) (text_beq_iff a.master_flight b.master_flight) in
    (
      (λ h. let q = all_four.0 h in identity_eq a b q.0 q.1 q.2 q.3),
      (λ e. all_four.1 (
        ap (λ (i : Identity). i.airport) e,
        ap (λ (i : Identity). i.direction) e,
        ap (λ (i : Identity). i.scheduled) e,
        ap (λ (i : Identity). i.master_flight) e,
      )),
    )

abbrev identity_of : Identity → Key → Identity
identity_of d (by_identity i) = i
identity_of d _ = d

pub key_beq_iff : (a b : Key) → (key_beq a b ≡ true) ↔ (a ≡ b)
key_beq_iff (by_identity a) (by_identity b) = (
  (λ h. ap by_identity ((identity_beq_iff a b).0 h)),
  (λ e. (identity_beq_iff a b).1 (ap (identity_of a) e)),
)
key_beq_iff (by_route d m o t) (by_route d' m' o' t') =
    let all_four =
      four_iff (text_beq d d') (m == m') (text_beq o o') (text_beq t t') (text_beq_iff d d')
        (==_iff m m') (text_beq_iff o o') (text_beq_iff t t') in
    (
      (λ h. let q = all_four.0 h in λ i. by_route (q.0 i) (q.1 i) (q.2 i) (q.3 i)),
      (λ e. all_four.1 (cc, cc, cc, cc)),
    )
key_beq_iff (by_identity a) (by_route d' m' o' t') = ((λ h. cc), (λ h. cc))
key_beq_iff (by_route d m o t) (by_identity b) = ((λ h. cc), (λ h. cc))

instance abbrev pub key_eq : Eq Key
key_eq = record { beq = key_beq; beq_iff = key_beq_iff }

pub key_of : Flight → Key
key_of f = elim f.codeshare_identity [
  | some i ↦ by_identity i
  | none ↦ by_route f.direction f.marker_at (strip f.origin_airport) (strip f.destination_airport)
]

-- `_unique_text_values`
pub unique_texts : List Text → List Text → List Text
unique_texts seen [] = []
unique_texts seen (x ∷ xs) =
    let value = strip x in
    let skipped = unique_texts seen xs in
    let kept = unique_texts (value ∷ seen) xs in
    if text_beq value [] || any (λ y. text_beq y value) seen then skipped else value ∷ kept

abbrev pub join_slash : List Text → Text
join_slash [] = []
join_slash (x ∷ []) = x
join_slash (x ∷ y ∷ ys) = x ++ b' ' ∷ b'/' ∷ b' ' ∷ join_slash (y ∷ ys)

-- a row of the answer
pub record Merged : Type 0 where
  pub flight : Flight
  pub codeshare_flight_numbers : List Text

abbrev pub is_master : Flight → Bool
is_master f = elim f.codeshare_identity [
  | none ↦ false
  | some i ↦ text_beq f.flight_number i.master_flight
]

-- `next(..., default)`
abbrev pub find_or : Flight → (Flight → Bool) → List Flight → Flight
find_or d p [] = d
find_or d p (x ∷ xs) = let rest = find_or d p xs in if p x then x else rest

abbrev pub number_before : Flight → Flight → Bool
number_before a b = text_ltb a.flight_number b.flight_number

abbrev pub merged_numbers : List Flight → List Text
merged_numbers ordered = unique_texts [] (map (λ (f : Flight). f.flight_number) ordered)

-- a group of several flights, in the order of their numbers
abbrev pub merge_ordered : Flight → List Flight → Merged
merge_ordered first ordered =
    let representative = find_or first is_master ordered in
    let numbers = merged_numbers ordered in
    record {
      flight = record representative {
        flight_number = join_slash numbers;
        airline = join_slash (unique_texts [] (map (λ (f : Flight). f.airline) ordered));
        codeshare_identity = none;
      };
      codeshare_flight_numbers = numbers;
    }

abbrev pub first_or : Flight → List Flight → Flight
first_or d [] = d
first_or d (x ∷ xs) = x

pub merge_group : List Flight → List Merged
unfolding unique_texts
merge_group [] = []
merge_group (f ∷ []) =
    record {
      flight = record f { codeshare_identity = none };
      codeshare_flight_numbers = strip f.flight_number ∷ [];
    }
    ∷ []
merge_group (f ∷ g ∷ fs) =
    let ordered = sorted number_before (f ∷ g ∷ fs) in
    merge_ordered (first_or f ordered) ordered ∷ []

abbrev pub merge_groups : List (List Flight) → List Merged
merge_groups [] = []
merge_groups (g ∷ gs) = merge_group g ++ merge_groups gs

pub groups_of : List Flight → Dict Key (List Flight)
unfolding grouped key_of
groups_of items = grouped key_of (λ f. f) [] items

pub deduplicate_codeshare_flights : List Flight → List Merged
unfolding groups_of merge_group
deduplicate_codeshare_flights items = merge_groups (values (groups_of items))
