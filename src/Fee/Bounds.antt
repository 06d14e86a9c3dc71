-- ===== src/Fee/Bounds.antt =====
-- What every quote satisfies: its length in days and minutes, the cap on its total, and that a
-- visit within the grace time is free.
use kor_travel_transport.Prelude.{
  some-inj, ℕ, suc, ◌-◌, ◌*◌, ◌≤◌, ◌≡◌, refl, ap, ◌∙◌, Option, some, List, [], ◌∷◌, map, arith, sum,
  length, All, ℤ, pos, String, str_eq, Bool-cases, inl, inr, subst,
}
use kor_travel_transport.Prelude.Dict.{Dict, get, put, get-put, string_eq}
use kor_travel_transport.Clock.{Zone, Aware, aware, instant, minute_us, day_us}
use kor_travel_transport.Fee.{
  FeeRule, ok, CalculatedFee, Calendar, ceil_div, visit_of, is_within, by_day_type,
  calculate_total_fee,
}
use kor_travel_transport.Fee.Chunks.{starts, item_at, applied}
use kor_travel_transport.Fee.Caps.{
  minutes, FitsDay, IsCapped, items-FitsDay, sum-minutes, sum-le, length-starts, sum_free,
}
use kor_travel_transport.Fee.Stay.{quote, day_starts}

length-map : {A B : Type 0} (f : A → B) (xs : List A) → length (map f xs) ≡ length xs
length-map f [] = refl
length-map f (x ∷ xs) = ap suc (length-map f xs)

pub by_day_type-All :
    (P : FeeRule → Type 0) (d : Dict String FeeRule) (rules : List FeeRule)
    → ((k : String) (r : FeeRule) → get d k ≡ some r → P r)
    → All P rules
    → (k : String) (r : FeeRule) → get (by_day_type d rules) k ≡ some r
    → P r
unfolding by_day_type
by_day_type-All P d [] old new = old
by_day_type-All P d (x ∷ xs) old new =
    by_day_type-All P (put d x.day_type x) xs (λ k r found. put-All k r found) new.1
  where
    put-All : (k : String) (r : FeeRule) → get (put d x.day_type x) k ≡ some r → P r
    put-All k r found = elim (Bool-cases (str_eq x.day_type k)) [
      | inl same ↦ subst P (some-inj (rw (get-put d x.day_type k x, same) at found)) new.0
      | inr other ↦ old k r (rw (get-put d x.day_type k x, other) at found)
    ]

module _ (entry exit : Aware) (rules : List FeeRule) (z : Zone) (c : Calendar) (grace : Option ℤ)
    (r : CalculatedFee)
    (priced : calculate_total_fee (aware entry) (aware exit) rules z c grace ≡ ok r) where
  -- A quote has one item for each begun day. Each item has from 1 to 1440 minutes, and together they
  -- have the minutes of the stay, the last begun one counted whole.
  pub quote_minutes :
      (length r.breakdown ≡ ceil_div (instant exit - instant entry) day_us)
      × All FitsDay r.breakdown
      × (sum (map minutes r.breakdown) ≡ ceil_div (instant exit - instant entry) minute_us)
  quote_minutes =
      let q = quote entry exit rules z c grace r priced in
      let v = visit_of (instant entry) (instant exit) q.weekday_rule q.holiday_rule c z grace in
      let n = ceil_div (instant exit - instant entry) day_us in
      rw q.breakdown (
        length-map (item_at v (instant exit)) (day_starts (instant entry) (instant exit))
            ∙ length-starts n (instant entry),
        items-FitsDay v (instant exit) n (instant entry),
        sum-minutes n v (instant exit) (instant entry) (omega (arith, q.later)) refl,
      )

  -- Where each rule has a positive daily maximum of at most `m`, the total is at most `m` for each
  -- begun day of the stay.
  pub total_fee_capped :
      (m : ℕ)
      → All (IsCapped m) rules
      → r.total_fee ≤ ceil_div (instant exit - instant entry) day_us * m
  unfolding visit_of get
  total_fee_capped m capped =
      let q = quote entry exit rules z c grace r priced in
      let v = visit_of (instant entry) (instant exit) q.weekday_rule q.holiday_rule c z grace in
      let n = ceil_div (instant exit - instant entry) day_us in
      let at = by_day_type-All (IsCapped m) [] rules (λ k x e. cc) capped in
      let total : r.total_fee
          ≡ sum (map applied (map (item_at v (instant exit)) (starts n (instant entry)))) =
        q.total ∙ ap (λ b. sum (map applied b)) q.breakdown in
      rw total (
        sum-le m n v (instant exit) (instant entry) (at "weekday" q.weekday_rule q.weekday_found)
          (at "holiday" q.holiday_rule q.holiday_found))

-- A stay of at most the grace minutes costs nothing, whatever the rules.
pub within_grace_free :
    (entry exit : Aware) (rules : List FeeRule) (z : Zone) (c : Calendar) (grace : ℕ)
    (r : CalculatedFee)
    → instant exit - instant entry ≤ grace * minute_us
    → calculate_total_fee (aware entry) (aware exit) rules z c (some (pos grace)) ≡ ok r
    → r.total_fee ≡ 0
unfolding visit_of is_within
within_grace_free entry exit rules z c grace r short priced =
    let q = quote entry exit rules z c (some (pos grace)) r priced in
    let v =
      visit_of (instant entry) (instant exit) q.weekday_rule q.holiday_rule c z
        (some (pos grace)) in
    q.total
    ∙ ap (λ b. sum (map applied b)) q.breakdown
    ∙ sum_free _ v (instant exit) (instant entry) (ground arith)
