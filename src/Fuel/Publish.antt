-- ===== src/Fuel/Publish.antt =====
-- `publish_fuel_statistics`, `prune_fuel_statistics` and `cleanup_fuel_statistics`. Every statement names
-- one source, so the tables are their rows of one source. Points are inserted 500 at a time and daily rows
-- 250 at a time, within one transaction; the model inserts them at its end, where others first see them.
pub mod Steps
pub mod Kept
pub mod Cleaned
use kor_travel_transport.Prelude.{
  ℕ, zero, suc, ◌+◌, ◌-◌, Bool, true, false, not, Option, none, some, List, [], ◌∷◌, ◌++◌, map,
  keep, any, ltb, leb, ◌==◌, ◌&&◌, ◌||◌, if◌then◌else◌, ◌≡◌, ◌↔◌, refl, sym, ap, ◌∙◌, ==_iff, arith,
}
use kor_travel_transport.Prelude.Chars.{Text, text_beq, text_beq_iff}
use kor_travel_transport.Prelude.Dict.{Dict, Eq, get, put}
use kor_travel_transport.Fuel.{
  Floats, Point, Scope, nationwide, sido, sigungu, highways, highway, highway_direction,
  scope_number, GroupKey, ScopeLabel, Accumulator, empty, add,
}
use kor_travel_transport.Fuel.Points.{Located, Rows, located}

abbrev pub group_beq : GroupKey → GroupKey → Bool
group_beq a b =
    scope_number a.scope == scope_number b.scope
    && (text_beq a.scope_key b.scope_key && text_beq a.product_code b.product_code)

abbrev scope_of : ℕ → Scope
scope_of zero = nationwide
scope_of (suc zero) = sido
scope_of (suc (suc zero)) = sigungu
scope_of (suc (suc (suc zero))) = highways
scope_of (suc (suc (suc (suc zero)))) = highway
scope_of _ = highway_direction

scope_of-number : (a : Scope) → scope_of (scope_number a) ≡ a
scope_of-number nationwide = refl
scope_of-number sido = refl
scope_of-number sigungu = refl
scope_of-number highways = refl
scope_of-number highway = refl
scope_of-number highway_direction = refl

pub group_beq_iff : (a b : GroupKey) → (group_beq a b ≡ true) ↔ (a ≡ b)
group_beq_iff a b = (
  λ h.
      let number : (scope_number a.scope == scope_number b.scope) ≡ true = ground (arith, h) in
      let scope_key : text_beq a.scope_key b.scope_key ≡ true = ground (arith, h) in
      let product : text_beq a.product_code b.product_code ≡ true = ground (arith, h) in
      let scope : a.scope ≡ b.scope =
        sym (scope_of-number a.scope)
        ∙ ap scope_of ((==_iff (scope_number a.scope) (scope_number b.scope)).0 number)
        ∙ scope_of-number b.scope in
      cc (
        scope,
        (text_beq_iff a.scope_key b.scope_key).0 scope_key,
        (text_beq_iff a.product_code b.product_code).0 product,
      ),
  λ e. rw e (
      ground (
        arith,
        (==_iff (scope_number b.scope) (scope_number b.scope)).1 refl,
        (text_beq_iff b.scope_key b.scope_key).1 refl,
        (text_beq_iff b.product_code b.product_code).1 refl,
      )),
)

instance abbrev pub group_eq : Eq GroupKey
group_eq = record { beq = group_beq; beq_iff = group_beq_iff }

-- FuelStatisticsState
pub record PublicState : Type 0 where
  pub generated_at : ℕ
  pub day : ℕ

-- FuelStatisticsDaily, with the accumulator whose metrics it holds
pub record Daily (F : Floats) : Type 0 where
  pub group : GroupKey
  pub day : ℕ
  pub generated_at : ℕ
  pub metrics : Accumulator F

pub record Db (F : Floats) : Type 0 where
  pub points : List Point
  pub daily : List (Daily F)
  pub state : Option PublicState
  pub last_success_at : Option ℕ

abbrev pub is_generation : ℕ → Point → Bool
is_generation stamp p = p.generated_at == stamp

-- `delete(FuelStatisticsPoint).where(… generated_at == stamp)`
abbrev pub without_generation : ℕ → List Point → List Point
without_generation stamp points = keep (λ p. not (is_generation stamp p)) points

abbrev pub is_reached : ℕ → Option PublicState → Bool
is_reached stamp none = false
is_reached stamp (some s) = leb stamp s.generated_at

abbrev pub is_superseded : ℕ → Option ℕ → Bool
is_superseded stamp none = false
is_superseded stamp (some last) = not (last == stamp)

-- a point of a generation before the public one
abbrev pub is_old : Option PublicState → Point → Bool
is_old none p = false
is_old (some s) p = ltb p.generated_at s.generated_at

-- deletes the first `n` points that pass, and counts them
abbrev pub delete_first : (Point → Bool) → ℕ → List Point → List Point × ℕ
delete_first q n [] = ([], 0)
delete_first q zero (p ∷ ps) = (p ∷ ps, 0)
delete_first q (suc n) (p ∷ ps) =
    let deleted = delete_first q n ps in
    let kept = delete_first q (suc n) ps in
    if q p then (deleted.0, suc deleted.1) else (p ∷ kept.0, kept.1)

-- what a round of the clean-up meets: the clock before it, the points that other transactions have locked, and
-- whether the database raises
pub record Round : Type 0 where
  pub clock : ℕ
  pub skipped : Point → Bool
  pub fails : Bool

module _ (F : Floats) where
  abbrev pub Groups : Type 0
  Groups = Dict GroupKey (Accumulator F)

  abbrev pub or_empty : Text → Option (Accumulator F) → Accumulator F
  or_empty label none = empty F label
  or_empty label (some group) = group

  abbrev pub add_scopes : Groups → Point → List ScopeLabel → Groups
  add_scopes groups point [] = groups
  add_scopes groups point (s ∷ ss) =
      let key : GroupKey = record {
        scope = s.scope;
        scope_key = s.scope_key;
        product_code = point.product_code;
      } in
      add_scopes (put groups key (add F (or_empty s.label (get groups key)) point)) point ss

  -- `consume` for all points
  unfoldable pub consume : Groups → List Located → Groups
  unfolding add
  consume groups [] = groups
  consume groups ((point, scopes) ∷ rest) = consume (add_scopes groups point scopes) rest

  -- a publication has nothing to do: the state has reached it, or a later collection has succeeded
  abbrev pub is_settled : ℕ → Db F → Bool
  is_settled stamp db = is_superseded stamp db.last_success_at || is_reached stamp db.state

  abbrev pub is_dropped : ℕ → Daily F → Bool
  is_dropped day d = d.day == day || ltb (d.day + 6) day

  abbrev pub daily_rows : ℕ → ℕ → Groups → List (Daily F)
  daily_rows stamp day groups =
      map (λ g. record { group = g.0; day = day; generated_at = stamp; metrics = g.1 }) groups

  module _ (key : List Text → Text) (day_of : ℕ → ℕ) where
    abbrev pub new_points : ℕ → Rows → List Point
    new_points stamp rows = map (λ l. l.0) (located key stamp rows)

    -- from the lock of the source on, when the points have been prepared
    unfoldable pub finish : ℕ → Rows → Db F → Db F
    unfolding consume
    finish stamp rows db =
        if is_settled stamp db
        then record db { points = without_generation stamp db.points }
        else record db {
          points = without_generation stamp db.points ++ new_points stamp rows;
          daily =
              keep (λ d. not (is_dropped (day_of stamp) d)) db.daily
              ++ daily_rows stamp (day_of stamp) (consume [] (located key stamp rows));
          state = some (record { generated_at = stamp; day = day_of stamp });
        }

  -- `skipped` are the points that another transaction has locked
  pub prune_fuel_statistics : (Point → Bool) → Db F → Db F × ℕ
  prune_fuel_statistics skipped db =
      let deleted = delete_first (λ p. is_old db.state p && not (skipped p)) 2000 db.points in
      (record db { points = deleted.0 }, deleted.1)

  -- The rounds of the loop. One that fails, in the deletion or in the commit, is rolled back and is the last.
  pub cleanup_fuel_statistics : ℕ → List Round → Db F → Db F
  unfolding prune_fuel_statistics
  cleanup_fuel_statistics deadline [] db = db
  cleanup_fuel_statistics deadline (round ∷ rounds) db =
      let pruned = prune_fuel_statistics round.skipped db in
      let rest = cleanup_fuel_statistics deadline rounds pruned.0 in
      if leb deadline round.clock || round.fails
      then db
      else if ltb pruned.1 2000
      then pruned.0
      else rest
