-- ===== src/Insights/First.antt =====
-- The first crossing of each threshold and day.
use kor_travel_transport.Prelude.{
  ◌≡◌, refl, sym, ap, ◌∙◌, Option, none, some, List, [], ◌∷◌, arith, if◌then◌else◌, if-false,
  Bool-cases, inl, inr,
}
use kor_travel_transport.Prelude.Dict.{Dict, get, get-put}
use kor_travel_transport.Prelude.Sort.{sorted, IsSorted, sorted-IsSorted}
use kor_travel_transport.Clock.{Zone}
use kor_travel_transport.Thresholds.{Crossing}
use kor_travel_transport.Insights.{
  Slot, slot_beq, slot_beq_iff, slot_eq, slot_of, set_default, first_crossings, crossed_before,
}

-- the first event of a list with a threshold and local date
abbrev pub first_of : Zone → Slot → List Crossing → Option Crossing
first_of z k [] = none
first_of z k (c ∷ cs) =
    let rest = first_of z k cs in if slot_beq (slot_of z c) k then some c else rest

abbrev pub or_first : Option Crossing → Option Crossing → Option Crossing
or_first none o = o
or_first (some c) o = some c

-- `setdefault` at the slot of the event and at others; `o` is what the dict held there
get-set_default :
    (z : Zone) (k : Slot) (d : Dict Slot Crossing) (c : Crossing) (o : Option Crossing)
    (rest : Option Crossing)
    → get d (slot_of z c) ≡ o
    → or_first (get (set_default d (slot_of z c) c o) k) rest
      ≡ or_first (get d k) (if slot_beq (slot_of z c) k then some c else rest)
get-set_default z k d c none rest e =
    ap (λ q. or_first q rest) (get-put d (slot_of z c) k c)
    ∙ elim (Bool-cases (slot_beq (slot_of z c) k)) [
      | inl same ↦ rw same (
          sym (
            ap (λ q. or_first q (some c))
              (ap (get d) (sym ((slot_beq_iff (slot_of z c) k).0 same)) ∙ e)))
      | inr other ↦ rw other refl
    ]
get-set_default z k d c (some old) rest e = elim (Bool-cases (slot_beq (slot_of z c) k)) [
  | inl same ↦
      let there : get d k ≡ some old =
        ap (get d) (sym ((slot_beq_iff (slot_of z c) k).0 same)) ∙ e in
      ap (λ q. or_first q rest) there
      ∙ sym (ap (λ q. or_first q (if slot_beq (slot_of z c) k then some c else rest)) there)
  | inr other ↦ sym (ap (or_first (get d k)) (if-false _ _ other))
]

get-first_crossings :
    (z : Zone) (k : Slot) (d : Dict Slot Crossing) (cs : List Crossing)
    → get (first_crossings z d cs) k ≡ or_first (get d k) (first_of z k cs)
unfolding first_crossings
get-first_crossings z k d [] = or_none (get d k)
  where
    or_none : (o : Option Crossing) → o ≡ or_first o none
    or_none none = refl
    or_none (some c) = refl
get-first_crossings z k d (c ∷ cs) =
    get-first_crossings z k (set_default d (slot_of z c) c (get d (slot_of z c))) cs
    ∙ get-set_default z k d c (get d (slot_of z c)) (first_of z k cs) refl

-- For each threshold and local date the insights keep the first of the events in the order of time, and
-- nothing where there is none; and that order has no event in front of an earlier one.
pub first_crossings-first :
    (z : Zone) (k : Slot) (events : List Crossing)
    → (get (first_crossings z [] (sorted crossed_before events)) k
        ≡ first_of z k (sorted crossed_before events))
      × IsSorted crossed_before (sorted crossed_before events)
unfolding get
first_crossings-first z k events = (
  get-first_crossings z k [] (sorted crossed_before events),
  sorted-IsSorted crossed_before (λ x y h. ground arith) events,
)
