-- ===== src/Lib.antt =====
-- kor-travel-transport: the collector and the read side of a service of Korean transport data. Workers
-- run by Dagster collect parking, fuel, rail, bus and flight data into PostgreSQL, and an API answers
-- from the database. This library models the Python backend, below backend/app.
--
-- The files and the code:
--   Prelude        shared names: tests, lists, signed integers, texts, Python's dict and
--                  sorted.
--   Clock          core/time_utils.py: zones, alignment to intervals, days of a zone. Time is a count
--                  of microseconds since 0001-01-01, and the zones have fixed offsets.
--   Fee            services/fee_calculator.py: resolve_day_type and calculate_total_fee.
--   FeeRules       services/fee_rules.py: select_fee_rules and quote_parking_fee, which call Fee.
--   FeeParsing     services/parsers.py: parse_incheon_fee, whose rules FeeRules prices.
--   Recovery       dagster/recovery.py: the lease of a worker, the events of its session (_fence,
--                  _before_flush, _capture_runs, _before_commit, _after_commit, _after_rollback) and
--                  the recovery of a run whose worker ended. Recovery.Revoked: the lease that the
--                  sessions of an operation share. Recovery.Interleaving runs the sessions of many
--                  workers and the sensor over one database, one step at a time.
--   Scan           dagster/recovery.py: reconcile_collection_runs, its pages, budget and position, and
--                  ensure_collection_owner_active.
--   RecoveryTick   dagster/recovery.py: stale_five_minute_triggers and run_recovery_tick.
--   Holidays       services/holidays.py: the fields of an item, deduplication; Holidays.Service: the
--                  responses, the months of a range, the cache of months and get_holidays;
--                  Holidays.Collapse and Holidays.Recent: the last holidays before a date.
--   Flights        services/flight_status.py: codeshares; Flights.Times and Flights.Items: the items of
--                  the providers; Flights.Service: get_status, _fetch_status and the cache.
--   Analytics      services/analytics.py: deduplication of snapshots, and status levels.
--   Thresholds     services/analytics.py: the events at which free spaces cross a threshold.
--   Series         services/analytics.py: build_time_series.
--   Buckets        services/analytics.py: build_hourly_buckets, build_weekday_buckets and
--                  build_weekday_hour_patterns.
--   Insights       services/analytics.py: build_threshold_insights.
--   SpecialDays    services/analytics.py: build_special_day_patterns and build_holiday_patterns.
--   RailTimetable  services/rail_timetable.py: stored_rail_timetables.
--   Backups        services/backup_restore.py: the names and the directory of backups; Backups.Storage:
--                  the storage limit; Backups.Upload: new backups, uploads and restores.
--   History        services/parking_history_cache.py: the snapshot of the parking history;
--                  History.Encoding: the encoding of a response; History.Cache: prepared responses.
--   TrafficCurrent services/traffic_current.py: the rows of the current traffic and their state.
--   Fuel           services/fuel_statistics.py: the groups of fuel prices; Fuel.Points: the points of a
--                  source; Fuel.Publish: publication, pruning and clean-up; Fuel.Publish.Steps: how they
--                  interleave.
--   Stations       services/rail_station_mapping.py: keys and names of station codes and places;
--                  Stations.Manual: the links an administrator saves; Stations.Automatic: the automatic
--                  links; Stations.Effective: the links in force; Stations.Plan and Stations.Apply: the
--                  plan of new automatic links, and how it is written to the table of codes.
--   Examples       concrete inputs.
--
-- Fuel. The loop of calculate_total_fee takes a day of the stay in each round, and is given the days
-- of the stay plus two; the loop of split_by_local_day enters a later local day in each round, and is
-- given the number of local days plus two. The scan of the runs is given two more pages than there are
-- ids, since each page moves on to a later id, and _iter_months twelve rounds for each year.
-- The loops over the chunks of an upload and over the rounds of a clean-up go over a list of what the
-- clock says before each round.
--
-- Outside the code are the database, which is a function from ids to rows or a list of stored rows, the
-- holiday service, and what Dagster says of a run: these are arguments. Not modelled are the routes
-- and schemas of the API, the SQL of the migrations and of the statistics queries, the HTTP clients,
-- the frontend, savepoints inside a worker's transaction, and the texts shown to users. Numbers of the code are unbounded integers, as in Python.
pub mod Prelude
pub mod Clock
pub mod Fee
pub mod FeeRules
pub mod FeeParsing
pub mod RailTimetable
pub mod Recovery
pub mod Scan
pub mod RecoveryTick
pub mod Holidays
pub mod Flights
pub mod Analytics
pub mod Thresholds
pub mod Series
pub mod Buckets
pub mod Insights
pub mod SpecialDays
pub mod Backups
pub mod TrafficCurrent
pub mod Fuel
pub mod Stations
pub mod History
mod Examples
