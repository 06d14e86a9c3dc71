-- ===== src/Fuel/Summary.antt =====
-- One more point in a group.
use kor_travel_transport.Prelude.{
  ℕ, suc, ◌<◌, ◌≡◌, refl, sym, ap, ◌∙◌, Bool, true, false, Option, none, some, List, [], ◌∷◌, ltb,
  ◌&&◌, if◌then◌else◌, if-true, if-false, Bool-cases, inl, inr, arith, if-cases, count, count-le,
  length, subst,
}
use kor_travel_transport.Prelude.Chars.{
  text_ltb, text_ltb_irrefl, text_ltb_asym, text_ltb_trans, text_beq, text_beq_iff,
}
use kor_travel_transport.Fuel.{
  Floats, Station, Point, Accumulator, below, equals, max_price, lesser, summed, add,
}

abbrev pub key_below : Station → Option Station → Bool
key_below s none = true
key_below s (some t) = text_ltb s.station_key t.station_key

abbrev pub is_of : Station → Option Station → Bool
is_of s none = false
is_of s (some t) = text_beq s.station_key t.station_key

-- the points at the lowest price whose station has a lesser key than `o`
abbrev pub cheaper_key : Option ℕ → Option Station → Point → Bool
cheaper_key m o p = equals p.price m && key_below p.station o

abbrev pub cheapest_one : Option ℕ → Option Station → Point → Bool
cheapest_one m o p = equals p.price m && is_of p.station o

-- The number of the points; no point below the minimum or above the maximum; how many stand at the minimum;
-- and the station with the least key among these.
pub record IsSummary (F : Floats) (acc : Accumulator F) (ps : List Point) : Type 0 where
  pub counted : acc.count ≡ length ps
  pub none_below : count (λ p. below p.price acc.minimum) ps ≡ 0
  pub none_above : count (λ p. ltb acc.maximum p.price) ps ≡ 0
  pub cheapest_counted : acc.cheapest_count ≡ count (λ p. equals p.price acc.minimum) ps
  pub no_lesser_key : count (cheaper_key acc.minimum acc.cheapest) ps ≡ 0
  pub cheapest_there : 0 < count (cheapest_one acc.minimum acc.cheapest) ps

zero-le :
    (p q : Point → Bool)
    → ((x : Point) → p x ≡ true → q x ≡ true)
    → (xs : List Point) → count q xs ≡ 0
    → count p xs ≡ 0
zero-le p q h xs z = omega (arith, count-le p q h xs, z)

below-step :
    (a m : ℕ) (o : Option ℕ) → below m o ≡ true → below a (some m) ≡ true → below a o ≡ true
below-step a m none h k = refl
below-step a m (some n) h k = ground (arith, h, k)

equals-step :
    (a m : ℕ) (o : Option ℕ) → below m o ≡ true → equals a (some m) ≡ true → below a o ≡ true
equals-step a m none h k = refl
equals-step a m (some n) h k = ground (arith, h, k)

above-step : (m p a : ℕ) → ltb (max_price m p) a ≡ true → ltb m a ≡ true
above-step m p a h = ground (arith, h)

lesser-step :
    (s u : Station) (o : Option Station) → key_below u (lesser s o) ≡ true → key_below u o ≡ true
lesser-step s u none h = refl
lesser-step s u (some t) h = elim (Bool-cases (text_ltb s.station_key t.station_key)) [
  | inl less ↦ elim (Bool-cases (text_ltb u.station_key t.station_key)) [
    | inl yes_below ↦ yes_below
    | inr not_below ↦
        let back = text_ltb_asym s.station_key t.station_key less in
        let other = text_ltb_trans u.station_key t.station_key s.station_key not_below back in
        cc (sym other, ap (key_below u) (sym (if-true (some s) (some t) less)) ∙ h)
  ]
  | inr more ↦ ap (key_below u) (sym (if-false (some s) (some t) more)) ∙ h
]

no_cheapest : (m : Option ℕ) (ps : List Point) → count (cheapest_one m none) ps ≡ 0
no_cheapest m [] = refl
no_cheapest m (p ∷ ps) = ground (arith, no_cheapest m ps)

lesser_self :
    (m : Option ℕ) (s : Station) (o : Option Station) (ps : List Point)
    → 0 < count (cheapest_one m o) ps
    → key_below s (lesser s o) ≡ false
lesser_self m s none ps there = absurd (omega (arith, there, no_cheapest m ps))
lesser_self m s (some t) ps there = elim (Bool-cases (text_ltb s.station_key t.station_key)) [
  | inl less ↦ ap (key_below s) (if-true (some s) (some t) less) ∙ text_ltb_irrefl s.station_key
  | inr more ↦ ap (key_below s) (if-false (some s) (some t) more) ∙ more
]

lesser-there :
    (m : Option ℕ) (p : Point) (o : Option Station) (ps : List Point)
    → equals p.price m ≡ true
    → 0 < count (cheapest_one m o) ps
    → 0 < count (cheapest_one m (lesser p.station o)) (p ∷ ps)
lesser-there m p none ps same there =
    ground (arith, same, (text_beq_iff p.station.station_key p.station.station_key).1 refl)
lesser-there m p (some t) ps same there =
    elim (Bool-cases (text_ltb p.station.station_key t.station_key)) [
      | inl less ↦
          subst (λ o. 0 < count (cheapest_one m o) (p ∷ ps))
            (sym (if-true (some p.station) (some t) less))
            (ground
              (arith, same, (text_beq_iff p.station.station_key p.station.station_key).1 refl))
      | inr more ↦
          subst (λ o. 0 < count (cheapest_one m o) (p ∷ ps))
            (sym (if-false (some p.station) (some t) more)) (ground (arith, there))
    ]

module _ (F : Floats) (acc : Accumulator F) (p : Point) (ps : List Point)
    (h : IsSummary F acc ps) where
  add-none_above : count (λ q. ltb (max_price acc.maximum p.price) q.price) (p ∷ ps) ≡ 0
  add-none_above =
      let rest =
        zero-le (λ q. ltb (max_price acc.maximum p.price) q.price) (λ q. ltb acc.maximum q.price)
          (λ q. above-step acc.maximum p.price q.price) ps h.none_above in
      ground (arith, rest)

  -- a new lowest price
  fresh_minimum :
      below p.price acc.minimum ≡ true
      → IsSummary F
          (record (summed F acc p) {
            minimum = some p.price;
            cheapest_count = 1;
            cheapest = some p.station;
          })
          (p ∷ ps)
  fresh_minimum lower =
      let self = (text_beq_iff p.station.station_key p.station.station_key).1 refl in
      let none_at =
        zero-le (λ q. equals q.price (some p.price)) (λ q. below q.price acc.minimum)
          (λ q. equals-step q.price p.price acc.minimum lower) ps h.none_below in
      let none_under =
        zero-le (λ q. below q.price (some p.price)) (λ q. below q.price acc.minimum)
          (λ q. below-step q.price p.price acc.minimum lower) ps h.none_below in
      let no_key =
        zero-le (cheaper_key (some p.price) (some p.station)) (λ q. equals q.price (some p.price))
          (λ q both. ground (arith, both)) ps none_at in
      record {
        counted = ap suc h.counted;
        none_below = ground (arith, none_under);
        none_above = add-none_above;
        cheapest_counted = ground (arith, none_at);
        no_lesser_key = ground (arith, no_key, text_ltb_irrefl p.station.station_key);
        cheapest_there = ground (arith, self);
      }

  same_minimum :
      below p.price acc.minimum ≡ false
      → equals p.price acc.minimum ≡ true
      → IsSummary F
          (record (summed F acc p) {
            cheapest_count = suc acc.cheapest_count;
            cheapest = lesser p.station acc.cheapest;
          })
          (p ∷ ps)
  same_minimum not_lower same =
      let no_key =
        zero-le (cheaper_key acc.minimum (lesser p.station acc.cheapest))
          (cheaper_key acc.minimum acc.cheapest)
          (λ q both.
            let level : equals q.price acc.minimum ≡ true = ground (arith, both) in
            let key : key_below q.station (lesser p.station acc.cheapest) ≡ true =
              ground (arith, both) in
            ground (arith, level, lesser-step p.station q.station acc.cheapest key))
          ps h.no_lesser_key in
      let own = lesser_self acc.minimum p.station acc.cheapest ps h.cheapest_there in
      record {
        counted = ap suc h.counted;
        none_below = ground (arith, h.none_below, not_lower);
        none_above = add-none_above;
        cheapest_counted = ground (arith, same, h.cheapest_counted);
        no_lesser_key = ground (arith, no_key, own);
        cheapest_there = lesser-there acc.minimum p acc.cheapest ps same h.cheapest_there;
      }

  higher_price :
      below p.price acc.minimum ≡ false
      → equals p.price acc.minimum ≡ false
      → IsSummary F (summed F acc p) (p ∷ ps)
  higher_price not_lower other = record {
    counted = ap suc h.counted;
    none_below = ground (arith, h.none_below, not_lower);
    none_above = add-none_above;
    cheapest_counted = ground (arith, other, h.cheapest_counted);
    no_lesser_key = ground (arith, other, h.no_lesser_key);
    cheapest_there = ground (arith, other, h.cheapest_there);
  }

  pub add-IsSummary : IsSummary F (add F acc p) (p ∷ ps)
  unfolding add
  add-IsSummary =
      let at_same = record (summed F acc p) {
        cheapest_count = suc acc.cheapest_count;
        cheapest = lesser p.station acc.cheapest;
      } in
      if-cases (λ a. IsSummary F a (p ∷ ps)) (below p.price acc.minimum)
        {x = record (summed F acc p) {
          minimum = some p.price;
          cheapest_count = 1;
          cheapest = some p.station;
        }}
        {y = if equals p.price acc.minimum then at_same else summed F acc p} fresh_minimum
        (λ not_lower.
          if-cases (λ a. IsSummary F a (p ∷ ps)) (equals p.price acc.minimum) {x = at_same}
            {y = summed F acc p} (same_minimum not_lower) (higher_price not_lower))
