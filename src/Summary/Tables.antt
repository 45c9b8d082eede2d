-- ===== src/Summary/Tables.antt =====
-- The tables of `summarize` in scripts/report/diagnose_report.py: behind the checks the table of the
-- benchmarks and that of the telemetry, of the same launches.
pub mod Whole
mod Tests
use matching_machine.Effects.{Result, ok, raise}
use matching_machine.Prelude.{ℕ, ◌-◌, Bool, Option, none, some, List, map}
use matching_machine.Report.Floats.{Order, Arith}
use matching_machine.Summary
use matching_machine.Summary.Scores
use matching_machine.Summary.Telemetry
use matching_machine.Summary.{Key, LaunchRow, Sample, Group, Environment, or_default, summarize}
use matching_machine.Summary.Scores.{Triple, Deviation, benchmark_rows}
use matching_machine.Summary.Telemetry.{Launch, telemetry_rows}

-- A row of launches.csv.
pub record Recorded (F : Type 0) : Type 0 where
  pub key : Key
  pub exit_status : ℕ
  pub wall_s : F
  pub foreign_ms : F
  pub suspended_s : F
  pub throttle_core : ℕ
  pub throttle_package : ℕ
  pub device_irqs : ℕ
  pub thermal_irqs : ℕ

-- The errors: those of the checks, a median of nothing, and those of the telemetry.
pub data Stop : Type 0 where
  check : Summary.Fault → Stop
  no_median : Stop
  telemetry : Telemetry.Fault → Stop

pub record Tables (F : Type 0) : Type 0 where
  pub benchmarks : List (Scores.Row F)
  pub telemetries : List (Telemetry.Row F)

-- `expected - warmup`
abbrev pub difference : Option ℕ → Option ℕ → ℕ
difference (some expected) (some warmup) = expected - warmup
difference _ _ = 0

abbrev pub repetitions_of : Environment → ℕ
repetitions_of env = difference (or_default 5 env.repetitions) (or_default 0 env.warmup)

module _ {F : Type 0} where
  -- What the checks read of a launch, and what the telemetry reads.
  abbrev pub launch_row : Recorded F → LaunchRow
  launch_row r = record { key = r.key; exit_status = r.exit_status }

  abbrev pub launch_of : Recorded F → Launch F
  launch_of r = record {
    condition = r.key.condition;
    binary = r.key.binary;
    wall_s = r.wall_s;
    foreign_ms = r.foreign_ms;
    suspended_s = r.suspended_s;
    throttle_core = r.throttle_core;
    throttle_package = r.throttle_package;
    device_irqs = r.device_irqs;
    thermal_irqs = r.thermal_irqs;
  }

  unfoldable pub with_tables :
      Option (List (Scores.Row F))
      → Result Telemetry.Fault (List (Telemetry.Row F))
      → Result Stop (Tables F)
  with_tables none rows = raise no_median
  with_tables (some benchmarks) (raise e) = raise (telemetry e)
  with_tables (some benchmarks) (ok rows) =
      ok (record { benchmarks = benchmarks; telemetries = rows })

module _ {F N : Type 0} ⦃o : Order F⦄ ⦃a : Arith F⦄ ⦃by : Order N⦄ (stats : Deviation F)
    (natural : Triple → N) where
  unfoldable pub tables_from :
      (repetitions : ℕ)
      → List (Recorded F)
      → Result Summary.Fault (List (Group F))
      → Result Stop (Tables F)
  unfolding with_tables benchmark_rows telemetry_rows
  tables_from repetitions launches (raise e) = raise (check e)
  tables_from repetitions launches (ok groups) =
      with_tables (benchmark_rows stats natural repetitions groups)
        (telemetry_rows (map launch_of launches))

  unfoldable pub summarize_tables :
      (F → Bool) → Environment → List (Sample F) → List (Recorded F) → Result Stop (Tables F)
  unfolding tables_from summarize
  summarize_tables is_time env samples launches =
      tables_from (repetitions_of env) launches
        (summarize is_time env samples (map launch_row launches))
