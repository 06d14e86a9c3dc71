-- ===== src/Examples/ScanExamples.antt =====
-- A tick that finds one run of a finished worker.
use kor_travel_transport.Prelude.{
  ℕ, ◌≡◌, ◌≢◌, refl, ◌==◌, true, none, some, inl, if◌then◌else◌, arith,
}
use kor_travel_transport.Recovery.{Row, Db, running, failed, finished, unavailable}
use kor_travel_transport.Scan.{Tick, ScanState, scan, swept}
use kor_travel_transport.Scan.Sweep.{scan_recovers}
use kor_travel_transport.Scan.Ends.{scan_sweeps}

abbrev lost_run : Row
lost_run = record {
  status = running;
  orchestrator_run_id = some 7;
  heartbeat_at = some 5;
  started_at = 5;
}

abbrev one_run : Db
one_run id = if id == 2 then some lost_run else none

abbrev quiet : Tick
quiet = record { has_budget = λ n. true; now = λ n. 9; metadata = λ n owner. finished }

answers : (n o : ℕ) → quiet.metadata n o ≢ unavailable
answers n o e = cc

scan_sweeps_example : (s : ScanState) × (scan 3 1 quiet 0 one_run ≡ swept s)
scan_sweeps_example = scan_sweeps 3 1 0 quiet one_run (λ n. refl) answers

abbrev sweep : (s : ScanState) × (scan 3 1 quiet 0 one_run ≡ swept s)
sweep = scan_sweeps 3 1 0 quiet one_run (λ n. refl) answers

scan_recovers_example : sweep.0.db 2 ≡ some (record lost_run { status = failed })
scan_recovers_example =
    scan_recovers quiet 2 7 lost_run 3 0 0 one_run sweep.0 refl refl (λ n. refl) (omega arith)
      (omega arith) (inl sweep.1)
