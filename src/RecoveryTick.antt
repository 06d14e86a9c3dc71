-- ===== src/RecoveryTick.antt =====
-- backend/app/dagster/recovery.py: one tick of the recovery sensor, `run_recovery_tick`, which looks for
-- collections that no longer start and then scans the runs. Times are in microseconds.
pub mod Both
use kor_travel_transport.Prelude.{
  ℕ, ◌+◌, ◌-◌, ◌*◌, ◌/◌, Bool, true, false, not, Option, none, some, List, [], ◌∷◌, ◌++◌, keep, map,
  ltb, if◌then◌else◌,
}
use kor_travel_transport.Recovery.{Db}
use kor_travel_transport.Clock.{minute_us}
use kor_travel_transport.Scan.{Tick, Ticked, reconcile_collection_runs}

-- `FIVE_MINUTE_TRIGGERS`
pub data Trigger : Type 0 where
  airport highway : Trigger

abbrev pub triggers : List Trigger
triggers = airport ∷ highway ∷ []

abbrev pub collection_stale_after : ℕ
collection_stale_after = 20 * minute_us

-- the trigger, if its last start is too long ago, with the whole minutes since
abbrev pub stale_trigger : ℕ → Trigger → Option ℕ → List (Trigger × ℕ) → List (Trigger × ℕ)
stale_trigger now t none rest = rest
stale_trigger now t (some latest) rest =
    if ltb collection_stale_after (now - latest)
    then (t, (now - latest) / minute_us) ∷ rest
    else rest

stale_from : (Trigger → Option ℕ) → ℕ → List Trigger → List (Trigger × ℕ)
stale_from latest now [] = []
stale_from latest now (t ∷ ts) = stale_trigger now t (latest t) (stale_from latest now ts)

-- `latest` is the last start of a trigger in the database
pub stale_five_minute_triggers : (Trigger → Option ℕ) → ℕ → List (Trigger × ℕ)
unfolding stale_from
stale_five_minute_triggers latest now = stale_from latest now triggers

abbrev pub is_scheduled : Option (Trigger → Bool) → Trigger × ℕ → Bool
is_scheduled none entry = true
is_scheduled (some scheduled) entry = scheduled entry.0

pub data Ending : Type 0 where
  returned : ℕ → Ending
  stalled : List (Trigger × ℕ) → Ending
  metadata_unavailable : Ending

pub record TickResult : Type 0 where
  pub ending : Ending
  pub paused : List (Trigger × ℕ)
  pub scanned : Ticked

-- An exception of the scan goes before a stall.
abbrev pub ending_of : Bool → List (Trigger × ℕ) → ℕ → Ending
ending_of true stale recovered = metadata_unavailable
ending_of false [] recovered = returned recovered
ending_of false (s ∷ ss) recovered = stalled (s ∷ ss)

abbrev pub tick_result : List (Trigger × ℕ) → List (Trigger × ℕ) → Ticked → TickResult
tick_result stale paused k = record {
  ending = ending_of k.raised stale k.rows_recovered;
  paused = paused;
  scanned = k;
}

pub run_recovery_tick :
    ℕ
    → ℕ
    → Tick
    → ℕ
    → Db
    → (latest : Trigger → Option ℕ) → (now : ℕ) → Option (Trigger → Bool)
    → Option TickResult
unfolding reconcile_collection_runs stale_five_minute_triggers
run_recovery_tick last_id page_size t position db latest now scheduled =
    let stale = stale_five_minute_triggers latest now in
    let due = keep (is_scheduled scheduled) stale in
    let paused = keep (λ s. not (is_scheduled scheduled s)) stale in
    elim (reconcile_collection_runs last_id page_size t position db) [
      | none ↦ none
      | some k ↦ some (tick_result due paused k)
    ]
