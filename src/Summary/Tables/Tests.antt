-- ===== src/Summary/Tables/Tests.antt =====
-- The tables of a study of two launches, and the theorem on them.
use matching_machine.Effects.{ok, raise}
use matching_machine.Prelude.{ℕ, ◌≡◌, refl, true, none, some, List, [], ◌∷◌, map, ltb}
use matching_machine.Report.Floats.{nat_order, nat_arith}
use matching_machine.Report.Sort.{sorted}
use matching_machine.Report.Median.{median}
use matching_machine.Summary.{Key, Sample, whole, Environment, incomplete_repetitions, summarize}
use matching_machine.Summary.Grouping.{group_all, add_to}
use matching_machine.Summary.Scores.{
  Triple, Deviation, score_of, scores_of, row_of, rows_from, grouped_rows, benchmark_rows,
}
use matching_machine.Summary.Telemetry.{wall_not_positive, telemetry_rows}
use matching_machine.Summary.Tables.{Recorded, check, telemetry, launch_row, summarize_tables}
use matching_machine.Summary.Tables.Whole.{AreTables, summarize_tables-AreTables}

abbrev first_key : Key
first_key = record { session = 1; block = 1; condition = 7; binary = 3 }

abbrev second_key : Key
second_key = record { session = 1; block = 2; condition = 7; binary = 3 }

abbrev recorded : Key → (wall : ℕ) → Recorded ℕ
recorded k wall = record {
  key = k;
  exit_status = 0;
  wall_s = wall;
  foreign_ms = 20;
  suspended_s = 0;
  throttle_core = 1;
  throttle_package = 0;
  device_irqs = 4;
  thermal_irqs = 0;
}

abbrev launches : (wall : ℕ) → List (Recorded ℕ)
launches wall = recorded first_key 10 ∷ recorded second_key wall ∷ []

abbrev sample : Key → (repetition warmup time : ℕ) → Sample ℕ
sample k n w t = record { key = k; benchmark = 5; warmup = w; repetition = n; time = t }

-- Repetition 0 of each launch is a warm-up.
abbrev samples : List (Sample ℕ)
samples =
    sample first_key 0 1 900
    ∷ sample first_key 1 0 110
    ∷ sample second_key 0 1 800
    ∷ sample second_key 1 0 130
    ∷ []

abbrev environment : (repetitions : ℕ) → Environment
environment n = record { complete = some true; repetitions = whole n; warmup = whole 1 }

-- Stands for the `statistics` module.
abbrev some_stats : Deviation ℕ
some_stats = record { stdev = λ _. 1; mean = λ _. 10; quartiles = λ _. (10, 30) }

abbrev by_condition : Triple → ℕ
by_condition k = k.0

summarize_tables-two :
    summarize_tables some_stats by_condition (ltb 0) (environment 2) samples (launches 10)
    ≡ ok (record {
      benchmarks =
          record {
            condition = 7;
            binary = 3;
            benchmark = 5;
            launches = 2;
            repetitions = 1;
            median_ns = 120;
            min_ns = 110;
            max_ns = 130;
            spread_pct = 0;
            launch_cv_pct = some 0;
            iqr_pct = 0;
            within_cv_median_pct = none;
            within_cv_max_pct = none;
          }
          ∷ [];
      telemetries =
          record {
            condition = 7;
            binary = 3;
            launches = 2;
            throttle_core = 2;
            throttle_package = 0;
            device_irqs = 8;
            thermal_irqs = 0;
            suspended_s = 0;
            foreign_median = 2;
            foreign_max = 2;
            foreign_above_5 = 0;
          }
          ∷ [];
    })
unfolding summarize_tables summarize benchmark_rows grouped_rows scores_of score_of rows_from row_of
    telemetry_rows group_all add_to sorted median matching_machine.Summary.Telemetry.row_of
summarize_tables-two = refl

summarize_tables_stopped :
    summarize_tables some_stats by_condition (ltb 0) (environment 2) samples (launches 0)
    ≡ raise (telemetry wall_not_positive)
unfolding summarize_tables summarize benchmark_rows grouped_rows scores_of score_of rows_from row_of
    telemetry_rows group_all add_to sorted median matching_machine.Summary.Telemetry.row_of
summarize_tables_stopped = refl

summarize_tables-three :
    summarize_tables some_stats by_condition (ltb 0) (environment 3) samples (launches 10)
    ≡ raise (check incomplete_repetitions)
unfolding summarize_tables summarize
summarize_tables-three = refl

summarize_tables-AreTables_example :
    AreTables some_stats by_condition 1
      (launches 10)
      (summarize (ltb 0) (environment 2) samples (map launch_row (launches 10)))
      (summarize_tables some_stats by_condition (ltb 0) (environment 2) samples (launches 10))
summarize_tables-AreTables_example =
    summarize_tables-AreTables some_stats by_condition (ltb 0) samples (launches 10) (environment 2)
