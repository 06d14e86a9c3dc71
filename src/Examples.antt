-- ===== src/Examples.antt =====
-- Concrete inputs: each theorem at one of them, and tests of the definitions.
mod BackupExamples
mod ClockExamples
mod HistoryExamples
mod FeeExamples
mod RecoveryExamples
mod AnalyticsExamples
mod ScanExamples
mod HolidayExamples
mod SeriesExamples
mod FlightExamples
mod TickExamples
mod RailExamples
mod StationExamples
mod FuelExamples
mod ParsingExamples
mod TrafficExamples
