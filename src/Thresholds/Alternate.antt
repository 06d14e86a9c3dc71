-- ===== src/Thresholds/Alternate.antt =====
-- The events of one threshold: falls and rises take turns.
use kor_travel_transport.Prelude.{
  suc, ◌≡◌, refl, sym, ap, ◌∙◌, Bool, true, false, ◌&&◌, Option, none, some, List, [], ◌∷◌, ◌++◌,
  arith, ◌==◌, Bool-cases, Option-cases, inl, inr, if◌then◌else◌, if-true, if-false, ℤ, pos_part,
  neg_part, leb_ℤ, count,
}
use kor_travel_transport.Prelude.Sort.{sorted}
use kor_travel_transport.Thresholds.{
  Direction, down, up, Reading, Crossing, crossings_of, crossings_between, scan_points, events_of,
  earlier, detect_threshold_events_from_time_series,
}

abbrev pub ℤ_beq : ℤ → ℤ → Bool
ℤ_beq a b = pos_part a == pos_part b && neg_part a == neg_part b

-- the direction of an event is allowed: one falls from above, one rises from below
abbrev turn : Bool → Direction → Option Bool
turn true down = some false
turn true up = none
turn false down = none
turn false up = some true

-- The events of the threshold, played on whether the spaces are at or above it; none when an event
-- is in the wrong direction.
abbrev replay_event : ℤ → Crossing → Bool → Option Bool
replay_event t c above = if ℤ_beq c.threshold t then turn above c.direction else some above

abbrev bind : Option Bool → (Bool → Option Bool) → Option Bool
bind none f = none
bind (some b) f = f b

pub replay : ℤ → Bool → List Crossing → Option Bool
replay t above [] = some above
replay t above (c ∷ cs) = bind (replay_event t c above) (λ b. replay t b cs)

replay-append :
    (t : ℤ) (above : Bool) (xs ys : List Crossing)
    → replay t above (xs ++ ys) ≡ bind (replay t above xs) (λ b. replay t b ys)
unfolding replay
replay-append t above [] ys = refl
replay-append t above (c ∷ xs) ys = elim (Option-cases (replay_event t c above)) [
  | inl stuck ↦ rw stuck refl
  | inr (b, goes) ↦ rw goes (replay-append t b xs ys)
]

abbrev pub is_above : ℤ → Reading → Bool
is_above t r = leb_ℤ t r.available_spaces

-- the events of another threshold leave the side as it is
replay-other :
    (t s : ℤ) (p q : Reading) (above : Bool)
    → ℤ_beq s t ≡ false
    → replay t above (crossings_of p q s) ≡ some above
unfolding replay crossings_of
replay-other t s p q above other = ground (arith, other)

replay-own :
    (t s : ℤ) (p q : Reading)
    → ℤ_beq s t ≡ true
    → replay t (is_above t p) (crossings_of p q s) ≡ some (is_above t q)
unfolding replay crossings_of
replay-own t s p q same = ground (arith, same)

-- one step of the series: the thresholds without `t`, and those in which it stands once
replay-between_other :
    (t : ℤ) (p q : Reading) (above : Bool) (ts : List ℤ)
    → count (λ s. ℤ_beq s t) ts ≡ 0
    → replay t above (crossings_between p q ts) ≡ some above
unfolding replay crossings_between
replay-between_other t p q above [] h = refl
replay-between_other t p q above (s ∷ ts) h = elim (Bool-cases (ℤ_beq s t)) [
  | inl same ↦
      let none_left : suc (count (λ s. ℤ_beq s t) ts) ≡ 0 = sym (if-true _ _ same) ∙ h in
      absurd (omega (arith, none_left))
  | inr other ↦
      let rest = replay-between_other t p q above ts (sym (if-false _ _ other) ∙ h) in
      replay-append t above (crossings_of p q s) (crossings_between p q ts)
      ∙ ap (λ o. bind o (λ b. replay t b (crossings_between p q ts)))
          (replay-other t s p q above other)
      ∙ rest
]

replay-between :
    (t : ℤ) (p q : Reading) (ts : List ℤ)
    → count (λ s. ℤ_beq s t) ts ≡ 1
    → replay t (is_above t p) (crossings_between p q ts) ≡ some (is_above t q)
unfolding replay crossings_between
replay-between t p q [] h = absurd (omega (arith, h))
replay-between t p q (s ∷ ts) h = elim (Bool-cases (ℤ_beq s t)) [
  | inl same ↦
      let one_here : suc (count (λ s. ℤ_beq s t) ts) ≡ 1 = sym (if-true _ _ same) ∙ h in
      replay-append t (is_above t p) (crossings_of p q s) (crossings_between p q ts)
      ∙ ap (λ o. bind o (λ b. replay t b (crossings_between p q ts))) (replay-own t s p q same)
      ∙ replay-between_other t p q (is_above t q) ts (omega (arith, one_here))
  | inr other ↦
      replay-append t (is_above t p) (crossings_of p q s) (crossings_between p q ts)
      ∙ ap (λ o. bind o (λ b. replay t b (crossings_between p q ts)))
          (replay-other t s p q (is_above t p) other)
      ∙ replay-between t p q ts (sym (if-false _ _ other) ∙ h)
]

abbrev pub last_of : Reading → List Reading → Reading
last_of r [] = r
last_of r (x ∷ xs) = last_of x xs

replay-scan :
    (t : ℤ) (ts : List ℤ)
    → count (λ s. ℤ_beq s t) ts ≡ 1
    → (p : Reading) (points : List Reading)
    → replay t (is_above t p) (scan_points ts p points) ≡ some (is_above t (last_of p points))
unfolding replay scan_points
replay-scan t ts h p [] = refl
replay-scan t ts h p (q ∷ points) =
    replay-append t (is_above t p) (crossings_between p q ts) (scan_points ts q points)
    ∙ ap (λ o. bind o (λ b. replay t b (scan_points ts q points))) (replay-between t p q ts h)
    ∙ replay-scan t ts h q points

-- The events of a threshold that is asked for once, played from the side of the threshold on which
-- the first point in time order stands, alternate between falls and rises and end on the side of the
-- last point.
pub detect_threshold_events_from_time_series_alternate :
    (points : List Reading) (thresholds : List ℤ) (t : ℤ)
    → count (λ s. ℤ_beq s t) thresholds ≡ 1
    → (first : Reading) (rest : List Reading) → sorted earlier points ≡ first ∷ rest
    → replay t (is_above t first) (detect_threshold_events_from_time_series points thresholds)
      ≡ some (is_above t (last_of first rest))
unfolding detect_threshold_events_from_time_series events_of
detect_threshold_events_from_time_series_alternate points thresholds t h first rest e =
    ap (λ l. replay t (is_above t first) (events_of thresholds l)) e
    ∙ replay-scan t thresholds h first rest
