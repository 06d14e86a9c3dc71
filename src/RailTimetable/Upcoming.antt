-- ===== src/RailTimetable/Upcoming.antt =====
-- The next trains of a stored timetable.
use kor_travel_transport.Prelude.{
  ◌≡◌, ◌⊎◌, subst, true, false, Option, none, some, List, [], ◌∷◌, keep, All, Bool-cases, inl, inr,
  if-true, if-false,
}
use kor_travel_transport.Prelude.Chars.{Text, text_ltb_irrefl, text_ltb_asym, text_ltb_trans}
use kor_travel_transport.Prelude.Sort.{sorted, sorted-All, sorted-IsFirst, IsFirst, Least}
use kor_travel_transport.RailTimetable.{
  Train, is_upcoming, leaves_before, time_or, upcoming, head_of,
}

-- What the first upcoming train is to the timetable: none, where no train is upcoming; or a train that
-- is upcoming, and no upcoming train leaves before it.
abbrev pub NextOf : Text → List Train → Option Train → Type 0
NextOf clock rows none = All (λ x. is_upcoming clock x ≡ false) rows
NextOf clock rows (some r) =
    (is_upcoming clock r ≡ true)
    × All (λ x. (is_upcoming clock x ≡ false) ⊎ (leaves_before x r ≡ false)) rows

module _ (clock : Text) where
  keep-upcoming :
      (rows : List Train) → All (λ x. is_upcoming clock x ≡ true) (keep (is_upcoming clock) rows)
  keep-upcoming [] = tt
  keep-upcoming (x ∷ xs) = elim (Bool-cases (is_upcoming clock x)) [
    | inl soon ↦ rw soon (soon, keep-upcoming xs)
    | inr later ↦ rw later (keep-upcoming xs)
  ]

  Least-kept :
      (r : Train) (rows : List Train)
      → Least leaves_before r (keep (is_upcoming clock) rows)
      → All (λ x. (is_upcoming clock x ≡ false) ⊎ (leaves_before x r ≡ false)) rows
  Least-kept r [] h = tt
  Least-kept r (x ∷ xs) h = elim (Bool-cases (is_upcoming clock x)) [
    | inl soon ↦
        let kept : Least leaves_before r (x ∷ keep (is_upcoming clock) xs) =
          subst (Least leaves_before r) (if-true _ _ soon) h in
        (inr kept.0, Least-kept r xs kept.1)
    | inr later ↦
        (inl later, Least-kept r xs (subst (Least leaves_before r) (if-false _ _ later) h))
  ]

  none_kept :
      (rows : List Train)
      → IsFirst leaves_before [] (keep (is_upcoming clock) rows)
      → All (λ x. is_upcoming clock x ≡ false) rows
  none_kept [] h = tt
  none_kept (x ∷ xs) h = elim (Bool-cases (is_upcoming clock x)) [
    | inl soon ↦ absurd (
        subst (IsFirst leaves_before [])
          (if-true (x ∷ keep (is_upcoming clock) xs) (keep (is_upcoming clock) xs) soon) h)
    | inr later ↦ (
      later,
      none_kept xs (
          subst (IsFirst leaves_before [])
            (if-false (x ∷ keep (is_upcoming clock) xs) (keep (is_upcoming clock) xs) later) h),
    )
  ]

  first_next :
      (rows ordered : List Train)
      → IsFirst leaves_before ordered (keep (is_upcoming clock) rows)
      → All (λ x. is_upcoming clock x ≡ true) ordered
      → NextOf clock rows (head_of ordered)
  first_next rows [] h all_up = none_kept rows h
  first_next rows (r ∷ rs) h all_up = (all_up.0, Least-kept r rows h)

-- The next departure of a timetable is a train of a valid time of the day that is not before the clock,
-- and no other such train leaves before it; there is none exactly where the timetable has no such train.
pub upcoming-NextOf :
    (clock : Text) (rows : List Train) → NextOf clock rows (head_of (upcoming clock rows))
unfolding upcoming
upcoming-NextOf clock rows =
    first_next clock rows (sorted leaves_before (keep (is_upcoming clock) rows))
      (sorted-IsFirst leaves_before (λ x. text_ltb_irrefl (time_or [] x.departure_time))
        (λ x y. text_ltb_asym (time_or [] x.departure_time) (time_or [] y.departure_time))
        (λ x y z.
          text_ltb_trans (time_or [] x.departure_time) (time_or [] y.departure_time)
            (time_or [] z.departure_time))
        (keep (is_upcoming clock) rows))
      (sorted-All leaves_before (λ x. is_upcoming clock x ≡ true) (keep (is_upcoming clock) rows)
        (keep-upcoming clock rows))
