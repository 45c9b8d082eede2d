-- ===== src/Summary/Scores/Tests.antt =====
-- A benchmark table of three launches.
use matching_machine.Prelude.{ℕ, ◌≡◌, refl, none, some, List, [], ◌∷◌}
use matching_machine.Report.Floats.{nat_order, nat_arith}
use matching_machine.Report.Sort.{sorted}
use matching_machine.Report.Median.{median}
use matching_machine.Summary.{Group}
use matching_machine.Summary.Grouping.{group_all, add_to}
use matching_machine.Summary.Scores.{
  Triple, triple_keys, Deviation, score_of, scores_of, row_of, rows_from, grouped_rows,
  benchmark_rows,
}

-- Stands for the `statistics` module.
abbrev some_stats : Deviation ℕ
some_stats = record { stdev = λ _. 1; mean = λ _. 10; quartiles = λ _. (10, 30) }

abbrev by_condition : Triple → ℕ
by_condition k = k.0

abbrev group : (block condition benchmark : ℕ) → List (ℕ × ℕ) → Group ℕ
group block condition benchmark times = record {
  key = record { session = 1; block = block; condition = condition; binary = 3 };
  benchmark = benchmark;
  times = times;
}

abbrev groups : List (Group ℕ)
groups =
    group 1 7 4 ((0, 20) ∷ (1, 10) ∷ (2, 30) ∷ [])
    ∷ group 1 6 4 ((0, 50) ∷ [])
    ∷ group 2 7 4 ((0, 40) ∷ (1, 40) ∷ [])
    ∷ []

benchmark_rows-groups :
    benchmark_rows some_stats by_condition 3 groups
    ≡ some (
        record {
          condition = 6;
          binary = 3;
          benchmark = 4;
          launches = 1;
          repetitions = 3;
          median_ns = 50;
          min_ns = 50;
          max_ns = 50;
          spread_pct = 0;
          launch_cv_pct = none;
          iqr_pct = 0;
          within_cv_median_pct = none;
          within_cv_max_pct = none;
        }
        ∷ record {
          condition = 7;
          binary = 3;
          benchmark = 4;
          launches = 2;
          repetitions = 3;
          median_ns = 30;
          min_ns = 20;
          max_ns = 40;
          spread_pct = 100;
          launch_cv_pct = some 0;
          iqr_pct = 0;
          within_cv_median_pct = some 0;
          within_cv_max_pct = some 0;
        }
        ∷ [])
unfolding benchmark_rows grouped_rows scores_of score_of rows_from row_of group_all add_to sorted
    median
benchmark_rows-groups = refl
