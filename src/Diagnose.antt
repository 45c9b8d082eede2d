-- ===== src/Diagnose.antt =====
-- scripts/record/bench_diagnose.py, the recorder of diagnostic studies.
pub mod Study
pub mod Matrix
pub mod Repetitions
