-- ===== src/Clock/Days.antt =====
-- `split_by_local_day`: the chunks tile the range, and none crosses a local midnight.
use kor_travel_transport.Prelude.{
  ℕ, zero, suc, ◌+◌, ◌-◌, ◌≤◌, ◌<◌, ◌≡◌, some, List, [], ◌∷◌, arith, min, inl, inr, Bool-cases, ltb,
  ltb→lt,
}
use kor_travel_transport.Clock.{
  Zone, utc, seoul, offset, Aware, instant, astimezone, date_of, next_midnight, split_loop,
  split_by_local_day,
}

-- The pairs lead from `c` to `e` with no gap and no overlap, as wall clocks of the zone. Each is
-- not empty, and all of it lies in the local day of its start.
abbrev pub Tiles : Zone → ℕ → ℕ → List (Aware × Aware) → Type 0
Tiles z c e [] = c ≡ e
Tiles z c e ((a, b) ∷ rest) =
    ((astimezone a z).wall ≡ c)
    × (c < (astimezone b z).wall)
    × (date_of ((astimezone b z).wall - 1) ≡ date_of c)
    × Tiles z (astimezone b z).wall e rest

wall_back :
    (z : Zone) (w : ℕ)
    → offset z ≤ w
    → (astimezone (astimezone (record { zone = z; wall = w }) utc) z).wall ≡ w
wall_back utc w h = omega arith
wall_back seoul w h = omega arith

Tiles-cons :
    (z : Zone) (c m e : ℕ) (chunks : List (Aware × Aware))
    → offset z ≤ c
    → c < m
    → date_of (m - 1) ≡ date_of c
    → offset z ≤ m
    → Tiles z m e chunks
    → Tiles z c e (
        (
          astimezone (record { zone = z; wall = c }) utc,
          astimezone (record { zone = z; wall = m }) utc,
        )
        ∷ chunks)
Tiles-cons z c m e chunks o lt day o' tiles =
    let back = wall_back z m o' in (wall_back z c o, rw back lt, rw back day, rw back tiles)

loop-Tiles :
    (fuel : ℕ) (z : Zone) (c e : ℕ)
    → offset z ≤ c
    → c ≤ e
    → 1 ≤ fuel
    → (c < e → date_of e + 2 ≤ date_of c + fuel)
    → (chunks : List (Aware × Aware)) × (split_loop fuel z c e ≡ some chunks) × Tiles z c e chunks
unfolding split_loop
loop-Tiles zero z c e o le pos enough = absurd (omega arith)
loop-Tiles (suc fuel) z c e o le pos enough = elim (Bool-cases (ltb c e)) [
  | inr stop ↦ ([], rw stop, ground arith)
  | inl more ↦
      let lt : c < e = ltb→lt c e more in
      let m = min (next_midnight c) e in
      let (chunks, run, tiles) =
        loop-Tiles fuel z m e (omega arith) (omega arith) (omega (arith, enough lt))
          (λ h. omega (arith, enough lt)) in
      (
        (
          astimezone (record { zone = z; wall = c }) utc,
          astimezone (record { zone = z; wall = m }) utc,
        )
            ∷ chunks,
        rw (more, run),
        Tiles-cons z c m e chunks o (omega arith) (omega arith) (omega arith) tiles,
      )
]

-- For a start before the end the loop ends, and the chunks tile the range by local days.
pub split_by_local_day-Tiles :
    (start end : Aware) (z : Zone)
    → instant start < instant end
    → (chunks : List (Aware × Aware)) × (split_by_local_day start end z ≡ some chunks)
      × Tiles z (astimezone start z).wall (astimezone end z).wall chunks
unfolding split_by_local_day
split_by_local_day-Tiles start end z h =
    let (chunks, run, tiles) =
      loop-Tiles (date_of (astimezone end z).wall - date_of (astimezone start z).wall + 2) z
        (astimezone start z).wall (astimezone end z).wall (omega arith) (omega arith) (omega arith)
        (λ _. omega arith) in
    (chunks, ground (arith, run), tiles)
