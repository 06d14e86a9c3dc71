-- ===== src/Thresholds/Lots.antt =====
-- `detect_threshold_events` on the rows of many lots, by lot.
use kor_travel_transport.Prelude.{
  ℕ, ◌≡◌, refl, sym, ap, ◌∙◌, Bool, true, false, Option, none, some, List, [], ◌∷◌, ◌++◌, ◌==◌,
  ==_iff, Bool-cases, inl, inr, if◌then◌else◌, if-true, if-false, ℤ, keep,
}
use kor_travel_transport.Prelude.Dict.{Dict, get, put, get-put, nat_eq}
use kor_travel_transport.Thresholds.{
  Reading, Crossing, LotReading, LotCrossing, at_lot, crossings_between, scan_points, events_of,
  events_after, scan_lots,
}

abbrev of_lot : ℕ → LotCrossing → Bool
of_lot lot event = event.parking_lot_id == lot

-- the readings of one lot, in the order of the rows
abbrev pub readings_of : ℕ → List LotReading → List Reading
readings_of lot [] = []
readings_of lot (row ∷ rows) =
    let rest = readings_of lot rows in if row.lot_id == lot then row.reading ∷ rest else rest

-- the events of a series that goes on from the reading before it, if there is one
abbrev continue_from : List ℤ → Option Reading → List Reading → List Crossing
continue_from ts none points = events_of ts points
continue_from ts (some p) points = scan_points ts p points

keep-append :
    (lot : ℕ) (xs ys : List LotCrossing)
    → keep (of_lot lot) (xs ++ ys) ≡ keep (of_lot lot) xs ++ keep (of_lot lot) ys
keep-append lot [] ys = refl
keep-append lot (x ∷ xs) ys = elim (Bool-cases (of_lot lot x)) [
  | inl same ↦ rw same (ap (λ l. x ∷ l) (keep-append lot xs ys))
  | inr other ↦ rw other (keep-append lot xs ys)
]

at_lot-append :
    (lot : ℕ) (xs ys : List Crossing) → at_lot lot (xs ++ ys) ≡ at_lot lot xs ++ at_lot lot ys
at_lot-append lot [] ys = refl
at_lot-append lot (x ∷ xs) ys =
    ap (λ l. record { parking_lot_id = lot; crossing = x } ∷ l) (at_lot-append lot xs ys)

keep-at_lot_own :
    (lot other : ℕ) (cs : List Crossing)
    → (lot == other) ≡ true
    → keep (of_lot other) (at_lot lot cs) ≡ at_lot other cs
keep-at_lot_own lot other [] same = refl
keep-at_lot_own lot other (c ∷ cs) same =
    if-true _ _ same
    ∙ ap (λ l. record { parking_lot_id = lot; crossing = c } ∷ l)
        (keep-at_lot_own lot other cs same)
    ∙ ap (λ l. record { parking_lot_id = l; crossing = c } ∷ at_lot other cs)
        ((==_iff lot other).0 same)

keep-at_lot_other :
    (lot other : ℕ) (cs : List Crossing)
    → (lot == other) ≡ false
    → keep (of_lot other) (at_lot lot cs) ≡ []
keep-at_lot_other lot other [] differ = refl
keep-at_lot_other lot other (c ∷ cs) differ =
    if-false _ _ differ ∙ keep-at_lot_other lot other cs differ

-- one row of the lot
continue-own :
    (ts : List ℤ) (lot : ℕ) (row : LotReading) (o : Option Reading) (points : List Reading)
    → (row.lot_id == lot) ≡ true
    → keep (of_lot lot) (events_after ts row o) ++ at_lot lot (scan_points ts row.reading points)
      ≡ at_lot lot (continue_from ts o (row.reading ∷ points))
unfolding events_after scan_points events_of
continue-own ts lot row none points same = refl
continue-own ts lot row (some p) points same =
    ap (λ l. l ++ at_lot lot (scan_points ts row.reading points))
      (keep-at_lot_own row.lot_id lot (crossings_between p row.reading ts) same)
    ∙ sym
        (at_lot-append lot (crossings_between p row.reading ts) (scan_points ts row.reading points))

-- one row of another lot
events_after-other :
    (ts : List ℤ) (lot : ℕ) (row : LotReading) (o : Option Reading)
    → (row.lot_id == lot) ≡ false
    → keep (of_lot lot) (events_after ts row o) ≡ []
unfolding events_after
events_after-other ts lot row none differ = refl
events_after-other ts lot row (some p) differ =
    keep-at_lot_other row.lot_id lot (crossings_between p row.reading ts) differ

continue-nil :
    (ts : List ℤ) (lot : ℕ) (o : Option Reading) → [] ≡ at_lot lot (continue_from ts o [])
unfolding events_of scan_points
continue-nil ts lot none = refl
continue-nil ts lot (some p) = refl

scan_lots_continue :
    (ts : List ℤ) (lot : ℕ) (previous : Dict ℕ Reading) (rows : List LotReading)
    → keep (of_lot lot) (scan_lots ts previous rows)
      ≡ at_lot lot (continue_from ts (get previous lot) (readings_of lot rows))
unfolding scan_lots
scan_lots_continue ts lot previous [] = continue-nil ts lot (get previous lot)
scan_lots_continue ts lot previous (row ∷ rows) =
    let later = put previous row.lot_id row.reading in
    keep-append lot (events_after ts row (get previous row.lot_id)) (scan_lots ts later rows)
    ∙ ap (λ l. keep (of_lot lot) (events_after ts row (get previous row.lot_id)) ++ l)
        (scan_lots_continue ts lot later rows
          ∙ ap (λ o. at_lot lot (continue_from ts o (readings_of lot rows)))
              (get-put previous row.lot_id lot row.reading))
    ∙ elim (Bool-cases (row.lot_id == lot)) [
      | inl same ↦
          rw
            (
              if-true (row.reading ∷ readings_of lot rows) (readings_of lot rows) same,
              if-true (some row.reading) (get previous lot) same,
            )
            (continue-own ts lot row (get previous row.lot_id) (readings_of lot rows) same
              ∙ ap
                  (λ k.
                    at_lot lot
                      (continue_from ts (get previous k) (row.reading ∷ readings_of lot rows)))
                  ((==_iff row.lot_id lot).0 same))
      | inr differ ↦
          rw
            (
              if-false (row.reading ∷ readings_of lot rows) (readings_of lot rows) differ,
              if-false (some row.reading) (get previous lot) differ,
            )
            (ap (λ l. l ++ at_lot lot (continue_from ts (get previous lot) (readings_of lot rows)))
              (events_after-other ts lot row (get previous row.lot_id) differ))
    ]

-- Of the events that the scan of the rows of all lots finds, those of one lot are exactly the events
-- of the series of its own readings, in their order: the rows of other lots between them change nothing.
pub scan_lots_separate :
    (thresholds : List ℤ) (lot : ℕ) (rows : List LotReading)
    → keep (of_lot lot) (scan_lots thresholds [] rows)
      ≡ at_lot lot (events_of thresholds (readings_of lot rows))
unfolding get
scan_lots_separate thresholds lot rows = scan_lots_continue thresholds lot [] rows
