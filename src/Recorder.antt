-- ===== src/Recorder.antt =====
-- scripts/record/bench_record.py, the recorder of benchmark studies.
pub mod Affinity
pub mod Cpus
pub mod Launch
pub mod Output
pub mod Samples
pub mod Schedule
pub mod Telemetry
pub mod Study
mod Tests
