-- ===== src/Fuel/Points/Stamped.antt =====
-- Every point of a publication has its generation.
use kor_travel_transport.Prelude.{
  ℕ, ◌≡◌, refl, true, Option, none, some, List, [], ◌∷◌, ◌++◌, map, keep, All, ltb, leb_ℤ, ℤ, pos,
  ◌==◌, ==_iff, if-both, pos_part,
}
use kor_travel_transport.Prelude.Chars.{Text, codes}
use kor_travel_transport.Fuel.{StationPrice, RestAreaPrice}
use kor_travel_transport.Fuel.Points.{
  Located, Rows, opinet, highway_rows, located, station_point, station_points, priced,
  rest_area_point, rest_area_scopes, rest_area_points,
}

module _ (key : List Text → Text) (stamp : ℕ) where
  abbrev IsStamped : List Located → Type 0
  IsStamped ls = All (λ p. (p.generated_at == stamp) ≡ true) (map (λ l. l.0) ls)

  self : (stamp == stamp) ≡ true
  self = (==_iff stamp stamp).1 refl

  stations-IsStamped : (rows : List StationPrice) → IsStamped (map (station_point key stamp) rows)
  unfolding station_point
  stations-IsStamped [] = tt
  stations-IsStamped (r ∷ rows) = (self, stations-IsStamped rows)

  append-IsStamped : (xs ys : List Located) → IsStamped xs → IsStamped ys → IsStamped (xs ++ ys)
  append-IsStamped [] ys hx hy = hy
  append-IsStamped (x ∷ xs) ys hx hy = (hx.0, append-IsStamped xs ys hx.1 hy)

  priced-IsStamped :
      (row : RestAreaPrice) (product : Text) (price : Option ℤ)
      → IsStamped (priced key stamp row product price)
  priced-IsStamped row product none = tt
  priced-IsStamped row product (some price) =
      if-both IsStamped (leb_ℤ price (pos 0)) {x = []}
        {y = (
          rest_area_point key stamp row product (pos_part price),
          rest_area_scopes key stamp row,
        )
          ∷ []}
        tt (self, tt)

  rest_areas-IsStamped : (rows : List RestAreaPrice) → IsStamped (rest_area_points key stamp rows)
  unfolding rest_area_points
  rest_areas-IsStamped [] = tt
  rest_areas-IsStamped (r ∷ rows) =
      let gasoline = priced key stamp r (codes "B027") r.gasoline_price in
      let diesel = priced key stamp r (codes "D047") r.diesel_price in
      let lpg = priced key stamp r (codes "K015") r.lpg_price in
      let rest = rest_area_points key stamp rows in
      append-IsStamped gasoline (diesel ++ (lpg ++ rest))
        (priced-IsStamped r (codes "B027") r.gasoline_price)
        (append-IsStamped diesel (lpg ++ rest) (priced-IsStamped r (codes "D047") r.diesel_price) (
          append-IsStamped lpg rest (priced-IsStamped r (codes "K015") r.lpg_price)
            (rest_areas-IsStamped rows)))

  pub located-IsStamped :
      (rows : Rows)
      → All (λ p. (p.generated_at == stamp) ≡ true) (map (λ l. l.0) (located key stamp rows))
  unfolding located station_points
  located-IsStamped (opinet rows) = stations-IsStamped (keep (λ r. ltb 0 r.price) rows)
  located-IsStamped (highway_rows rows) = rest_areas-IsStamped rows
