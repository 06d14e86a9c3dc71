-- ===== src/RecoveryTick/Both.antt =====
-- A tick both scans and tells of stalled collections.
use kor_travel_transport.Prelude.{
  ℕ, ◌-◌, ◌≡◌, refl, Bool, true, false, not, ◌&&◌, ◌||◌, Option, none, some, List, [], arith, ltb,
  keep,
}
use kor_travel_transport.Recovery.{Db}
use kor_travel_transport.Scan.{Tick, Ticked, reconcile_collection_runs}
use kor_travel_transport.Scan.Ends.{reconcile_collection_runs_ends}
use kor_travel_transport.RecoveryTick.{
  Trigger, airport, highway, collection_stale_after, Ending, stalled, returned,
  metadata_unavailable, TickResult, stale_trigger, tick_result, ending_of, is_scheduled,
  stale_five_minute_triggers, run_recovery_tick,
}

-- a collection that is scheduled and has last started too long ago
abbrev pub is_overdue : ℕ → (Trigger → Bool) → Trigger → Option ℕ → Bool
is_overdue now scheduled t none = false
is_overdue now scheduled t (some at) = ltb collection_stale_after (now - at) && scheduled t

abbrev pub is_stalled : Ending → Bool
is_stalled (stalled ts) = true
is_stalled _ = false

abbrev due : ℕ → (Trigger → Bool) → Option ℕ → Option ℕ → List (Trigger × ℕ)
due now scheduled a h =
    keep (is_scheduled (some scheduled))
      (stale_trigger now airport a (stale_trigger now highway h []))

due_stalls :
    (now recovered : ℕ) (scheduled : Trigger → Bool) (a h : Option ℕ)
    → is_stalled (ending_of false (due now scheduled a h) recovered)
      ≡ (is_overdue now scheduled airport a || is_overdue now scheduled highway h)
due_stalls now recovered scheduled none none = refl
due_stalls now recovered scheduled none (some h) = ground arith
due_stalls now recovered scheduled (some a) none = ground arith
due_stalls now recovered scheduled (some a) (some h) = ground arith

ending_stalls :
    (now recovered : ℕ) (scheduled : Trigger → Bool) (a h : Option ℕ) (raised : Bool)
    → is_stalled (ending_of raised (due now scheduled a h) recovered)
      ≡ (not raised && (is_overdue now scheduled airport a || is_overdue now scheduled highway h))
ending_stalls now recovered scheduled a h true = refl
ending_stalls now recovered scheduled a h false = due_stalls now recovered scheduled a h

-- Every tick scans the runs in full, whether or not a collection is stalled, and keeps what the scan has
-- left. It ends in the alarm exactly when the scan did not raise and one of the two collections is
-- scheduled and has last started more than twenty minutes ago.
pub run_recovery_tick_alarm :
    (last_id size position : ℕ) (t : Tick) (db : Db) (latest : Trigger → Option ℕ) (now : ℕ)
    (scheduled : Trigger → Bool)
    → (k : Ticked) × (r : TickResult) × (reconcile_collection_runs last_id size t position db
        ≡ some k)
      × (run_recovery_tick last_id size t position db latest now (some scheduled) ≡ some r)
      × (r.scanned ≡ k)
      × (is_stalled r.ending ≡ (
          not k.raised
          && (is_overdue now scheduled airport (latest airport)
              || is_overdue now scheduled highway (latest highway))))
unfolding run_recovery_tick stale_five_minute_triggers kor_travel_transport.RecoveryTick.stale_from
run_recovery_tick_alarm last_id size position t db latest now scheduled =
    let (k, run) = reconcile_collection_runs_ends last_id size position t db in
    let stale = stale_five_minute_triggers latest now in
    (
      k,
      tick_result (keep (is_scheduled (some scheduled)) stale)
          (keep (λ s. not (is_scheduled (some scheduled) s)) stale) k,
      run,
      rw (run_recovery_tick, run) refl,
      refl,
      ending_stalls now k.rows_recovered scheduled (latest airport) (latest highway) k.raised,
    )
