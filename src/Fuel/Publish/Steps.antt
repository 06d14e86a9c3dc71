-- ===== src/Fuel/Publish/Steps.antt =====
-- Publications, clean-ups and collections of one source, in any interleaving. The lock of a generation
-- is held from before the first test of a publication to the end of its transaction; the lock of the
-- source makes the end of a publication one step.
use kor_travel_transport.Prelude.{
  ℕ, ◌≡◌, Bool, true, false, not, some, List, ◌∷◌, keep, any, ◌==◌, if◌then◌else◌,
}
use kor_travel_transport.Prelude.Chars.{Text}
use kor_travel_transport.Fuel.{Floats, Point}
use kor_travel_transport.Fuel.Points.{Rows}
use kor_travel_transport.Fuel.Publish.{Db, is_settled, finish, new_points, prune_fuel_statistics}

-- the tables, the generations that are being published, and the points that the last switch of the public
-- generation wrote
pub record System (F : Floats) : Type 0 where
  pub db : Db F
  pub publishing : List ℕ
  pub published : List Point

module _ (F : Floats) (key : List Text → Text) (day_of : ℕ → ℕ) where
  abbrev pub without : ℕ → List ℕ → List ℕ
  without stamp stamps = keep (λ s. not (s == stamp)) stamps

  -- what the switch wrote, where there was one
  abbrev pub next_published : ℕ → Rows → System F → List Point
  next_published stamp rows s =
      if is_settled F stamp s.db then s.published else new_points F key day_of stamp rows

  pub data Step : System F → System F → Type 0 where
    begin :
        (s : System F) (stamp : ℕ)
        → any (λ t. t == stamp) s.publishing ≡ false
        → is_settled F stamp s.db ≡ false
        → Step s (record s { publishing = stamp ∷ s.publishing })
    publish :
        (s : System F) (stamp : ℕ) (rows : Rows)
        → any (λ t. t == stamp) s.publishing ≡ true
        → Step s (record {
          db = finish F key day_of stamp rows s.db;
          publishing = without stamp s.publishing;
          published = next_published stamp rows s;
        })
    fail :
        (s : System F) (stamp : ℕ) → Step s (record s { publishing = without stamp s.publishing })
    prune :
        (s : System F) (skipped : Point → Bool)
        → Step s (record s { db = (prune_fuel_statistics F skipped s.db).0 })
    succeed :
        (s : System F) (stamp : ℕ)
        → Step s (record s { db = record s.db { last_success_at = some stamp } })

  pub data Steps : System F → System F → Type 0 where
    done : (s : System F) → Steps s s
    step : (s t u : System F) → Step s t → Steps t u → Steps s u
