-- ===== src/Examples/TrafficExamples.antt =====
-- An update that replaces one road section and leaves another out of the current set.
use kor_travel_transport.Prelude.{ℕ, ◌≡◌, refl, arith, true, false, some, List, [], ◌∷◌}
use kor_travel_transport.Prelude.Chars.{Text, codes, text_eq, text_beq, text_ltb}
use kor_travel_transport.Prelude.Dict.{Dict, get, put}
use kor_travel_transport.Prelude.Sort.{sorted, insert}
use kor_travel_transport.TrafficCurrent.{
  Snapshot, Row, Tables, Run, Updated, value_error, updated, latest, write_points,
  update_traffic_current,
}
use kor_travel_transport.TrafficCurrent.Written.{is_member}
use kor_travel_transport.TrafficCurrent.Members.{IsOutcome, update_traffic_current-IsOutcome}

abbrev snapshot : ℕ → Text → ℕ → Snapshot
snapshot id identity observed_at = record {
  id = id;
  identity_key = identity;
  observed_at = observed_at;
  collected_at = observed_at;
  columns = [];
}

abbrev tables : Tables
tables = record {
  state = some (record {
    generation = 1;
    attempt_started_at = 5;
    attempt_order = 3;
    confirmed_at = 6;
    member_count = 2;
  });
  rows =
      (codes "a", record { generation = 1; snapshot = snapshot 1 (codes "a") 10 })
      ∷ (codes "b", record { generation = 1; snapshot = snapshot 2 (codes "b") 10 })
      ∷ [];
}

abbrev run : Run
run = record { id = 4; started_at = 20; is_running = true }

abbrev history : List Snapshot
history = snapshot 1 (codes "a") 10 ∷ snapshot 2 (codes "b") 10 ∷ snapshot 3 (codes "a") 20 ∷ []

abbrev pairs : List (Text × ℕ)
pairs = (codes "a", 10) ∷ (codes "a", 20) ∷ []

abbrev ids_of : Dict Text Row → List (ℕ × ℕ)
ids_of [] = []
ids_of ((k, row) ∷ rows) = (row.generation, row.snapshot.id) ∷ ids_of rows

abbrev rows_of : Updated → List (ℕ × ℕ)
rows_of value_error = []
rows_of (updated done after) = ids_of after.rows

update_traffic_current_test :
    rows_of (update_traffic_current 2 history run pairs 21 tables) ≡ (2, 3) ∷ (1, 2) ∷ []
unfolding update_traffic_current latest write_points get put text_beq text_ltb sorted insert
update_traffic_current_test = refl

fresh : (k : Text) → is_member 2 (get tables.rows k) ≡ false
unfolding get
fresh k = ground arith

update_traffic_current-IsOutcome_example :
    IsOutcome 2 history run pairs 21 tables (update_traffic_current 2 history run pairs 21 tables)
update_traffic_current-IsOutcome_example =
    update_traffic_current-IsOutcome 2 history run pairs 21 tables fresh
