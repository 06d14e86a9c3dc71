-- ===== src/Clock.antt =====
-- backend/app/core/time_utils.py. A wall clock is a count of microseconds since 0001-01-01 00:00,
-- which was a Monday. The code names two zones, both of a fixed offset in the years of the data.
-- Out of the model are the hours around `datetime.min` and `datetime.max`, where Python overflows.
pub mod Align
pub mod Days
use kor_travel_transport.Prelude.{
  ℕ, zero, suc, ◌+◌, ◌-◌, ◌*◌, ◌/◌, ◌%◌, Bool, true, false, Option, none, some, List, [], ◌∷◌, min,
  max, ltb, leb, ◌||◌, if◌then◌else◌, ℤ, pos, pos_part, ltb_ℤ, leb_ℤ,
}

abbrev pub second_us : ℕ
second_us = 1_000_000

abbrev pub minute_us : ℕ
minute_us = 60_000_000

abbrev pub hour_us : ℕ
hour_us = 3_600_000_000

abbrev pub day_us : ℕ
day_us = 86_400_000_000

pub data Zone : Type 0 where
  utc seoul : Zone

-- east of Greenwich
abbrev pub offset : Zone → ℕ
offset utc = 0
offset seoul = 32_400_000_000

-- a `datetime` with its `tzinfo`
pub record Aware : Type 0 where
  pub zone : Zone
  pub wall : ℕ

pub data DateTime : Type 0 where
  naive : ℕ → DateTime
  aware : Aware → DateTime

abbrev pub instant : Aware → ℕ
instant t = t.wall - offset t.zone

-- the method `astimezone`
abbrev pub astimezone : Aware → Zone → Aware
astimezone t z = record { zone = z; wall = instant t + offset z }

unfoldable pub ensure_tz : DateTime → Zone → Aware
ensure_tz (naive w) z = record { zone = z; wall = w }
ensure_tz (aware t) z = t

unfoldable pub to_seoul : DateTime → Aware
unfolding ensure_tz
to_seoul t = astimezone (ensure_tz t seoul) seoul

to_utc : DateTime → Zone → Aware
unfolding ensure_tz
to_utc t z = astimezone (ensure_tz t z) utc

unfoldable pub serialize_utc : DateTime → Aware
unfolding to_utc
serialize_utc t = to_utc t utc

-- `(t + timedelta(days=1)).replace(hour=0, minute=0, second=0, microsecond=0)` on a wall clock
abbrev pub next_midnight : ℕ → ℕ
next_midnight w = (w + day_us) / day_us * day_us

-- `int` of a number of seconds drops the microseconds
pub seconds_until_next_seoul_midnight : DateTime → ℕ
unfolding to_seoul
seconds_until_next_seoul_midnight t =
    let local = to_seoul t in max 1 ((next_midnight local.wall - local.wall) / second_us)

abbrev pub minute_of : ℕ → ℕ
minute_of w = w / minute_us % 60

abbrev pub hour_of : ℕ → ℕ
hour_of w = w / hour_us % 24

-- `date`, as the number of days since 0001-01-01
abbrev pub date_of : ℕ → ℕ
date_of w = w / day_us

-- Monday is 0, as in `date.weekday`
abbrev pub weekday : ℕ → ℕ
weekday d = d % 7

-- `replace(minute=m, second=0, microsecond=0)`
abbrev pub replace_minute : ℕ → ℕ → ℕ
replace_minute w m = w / hour_us * hour_us + m * minute_us

pub align_to_ten_minutes : DateTime → Aware
unfolding to_seoul
align_to_ten_minutes t =
    let local = to_seoul t in
    let minute = minute_of local.wall - minute_of local.wall % 10 in
    astimezone (record local { wall = replace_minute local.wall minute }) utc

-- `none` is the ValueError
unfoldable pub align_to_interval : DateTime → ℤ → Zone → Option Aware
unfolding ensure_tz
align_to_interval t interval z =
    if leb_ℤ interval (pos 0) || ltb_ℤ (pos 60) interval
    then none
    else let local = astimezone (ensure_tz t z) z in
      let minute = minute_of local.wall - minute_of local.wall % pos_part interval in
      some (astimezone (record local { wall = replace_minute local.wall minute }) utc)

-- The loop of `split_by_local_day`, over instants given by wall clocks of the zone.
pub split_loop : ℕ → Zone → ℕ → ℕ → Option (List (Aware × Aware))
split_loop zero z cursor boundary_end = none
split_loop (suc fuel) z cursor boundary_end =
    let chunk_end = min (next_midnight cursor) boundary_end in
    let rest = split_loop fuel z chunk_end boundary_end in
    if ltb cursor boundary_end
    then elim rest [
      | none ↦ none
      | some chunks ↦ some (
          (
            astimezone (record { zone = z; wall = cursor }) utc,
            astimezone (record { zone = z; wall = chunk_end }) utc,
          )
          ∷ chunks)
    ]
    else some []

-- `end <= start`, at two aware values. Each round enters a later local day, which gives the fuel.
pub split_by_local_day : Aware → Aware → Zone → Option (List (Aware × Aware))
unfolding split_loop
split_by_local_day start end z =
    let cursor = (astimezone start z).wall in
    let boundary_end = (astimezone end z).wall in
    if leb (instant end) (instant start)
    then some []
    else split_loop (date_of boundary_end - date_of cursor + 2) z cursor boundary_end
