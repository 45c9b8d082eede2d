-- ===== src/Report.antt =====
-- scripts/report/bench_report.py, the statistics and the tables of a study.
pub mod Floats
pub mod Sort
pub mod Ranks
pub mod Median
pub mod Extremes
pub mod Permutation
pub mod Trend
pub mod Launches
pub mod Tiers
pub mod Latency
mod Tests
