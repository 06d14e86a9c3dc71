-- ===== src/Fuel/Cheapest.antt =====
-- What the accumulator of a group holds after all its points.
use kor_travel_transport.Prelude.{
  ◌+◌, ◌<◌, ◌≡◌, refl, sym, ◌∙◌, Bool, List, [], ◌∷◌, ltb, arith, count, length, subst,
}
use kor_travel_transport.Prelude.Chars.{Text, text_ltb_irrefl, text_beq_iff}
use kor_travel_transport.Fuel.{Floats, Point, Accumulator, below, equals, empty, add, add_all}
use kor_travel_transport.Fuel.Summary.{IsSummary, cheaper_key, cheapest_one, add-IsSummary}

first_point :
    (F : Floats) (label : Text) (p : Point) → IsSummary F (add F (empty F label) p) (p ∷ [])
unfolding add
first_point F label p =
    let self = (text_beq_iff p.station.station_key p.station.station_key).1 refl in
    record {
      counted = refl;
      none_below = ground arith;
      none_above = ground arith;
      cheapest_counted = ground arith;
      no_lesser_key = ground (arith, text_ltb_irrefl p.station.station_key);
      cheapest_there = ground (arith, self);
    }

-- the points in the order in which they came, in front of those before them
abbrev onto : List Point → List Point → List Point
onto [] qs = qs
onto (p ∷ ps) qs = onto ps (p ∷ qs)

add_all-onto :
    (F : Floats) (acc : Accumulator F) (ps qs : List Point)
    → IsSummary F acc qs
    → IsSummary F (add_all F acc ps) (onto ps qs)
unfolding add_all
add_all-onto F acc [] qs h = h
add_all-onto F acc (p ∷ ps) qs h =
    add_all-onto F (add F acc p) ps (p ∷ qs) (add-IsSummary F acc p qs h)

count-onto :
    (f : Point → Bool) (ps qs : List Point) → count f (onto ps qs) ≡ count f ps + count f qs
count-onto f [] qs = omega arith
count-onto f (p ∷ ps) qs = ground (arith, count-onto f ps (p ∷ qs))

length-onto : (ps qs : List Point) → length (onto ps qs) ≡ length ps + length qs
length-onto [] qs = omega arith
length-onto (p ∷ ps) qs = omega (arith, length-onto ps (p ∷ qs))

count-first :
    (f : Point → Bool) (p : Point) (ps : List Point) → count f (onto ps (p ∷ [])) ≡ count f (p ∷ ps)
count-first f p ps = ground (arith, count-onto f ps (p ∷ []))

-- A group that has been given points, in any order: its count is their number, its minimum and maximum bound
-- their prices, its cheapest station has the least key of those at the minimum, and so many stand there.
pub add_all-IsSummary :
    (F : Floats) (label : Text) (p : Point) (ps : List Point)
    → IsSummary F (add_all F (empty F label) (p ∷ ps)) (p ∷ ps)
unfolding add_all
add_all-IsSummary F label p ps =
    let acc = add_all F (add F (empty F label) p) ps in
    let h = add_all-onto F (add F (empty F label) p) ps (p ∷ []) (first_point F label p) in
    record {
      counted = omega (arith, h.counted, length-onto ps (p ∷ []));
      none_below = sym (count-first (λ q. below q.price acc.minimum) p ps) ∙ h.none_below;
      none_above = sym (count-first (λ q. ltb acc.maximum q.price) p ps) ∙ h.none_above;
      cheapest_counted = h.cheapest_counted ∙ count-first (λ q. equals q.price acc.minimum) p ps;
      no_lesser_key =
          sym (count-first (cheaper_key acc.minimum acc.cheapest) p ps) ∙ h.no_lesser_key;
      cheapest_there =
          subst (λ n. 0 < n) (count-first (cheapest_one acc.minimum acc.cheapest) p ps)
            h.cheapest_there;
    }
