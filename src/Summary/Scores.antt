-- ===== src/Summary/Scores.antt =====
-- The benchmark table of `summarize` in scripts/report/diagnose_report.py: the launch scores of each
-- condition, binary and benchmark. All times are positive, so the divisions are defined.
pub mod Rows
mod Tests
use matching_machine.Effects.{Result, ok, raise}
use matching_machine.Prelude.{
  ℕ, ◌+◌, ◌-◌, ◌≡◌, Bool, true, false, ◌&&◌, ◌||◌, not, Option, none, some, List, [], ◌∷◌, ◌++◌,
  ◌==◌, map, all, length, ltb, if◌then◌else◌, arith,
}
use matching_machine.Report.Floats.{Order, Arith, le, lt}
use matching_machine.Report.Sort.{sorted}
use matching_machine.Report.Median.{median}
use matching_machine.Summary.{Key, Group, Fault, incomplete_repetitions, is_full}
use matching_machine.Summary.Grouping.{Keys, Groups, group_all}
use matching_machine.Report.Extremes.{min_from, max_from, max_of}

-- Condition, binary and benchmark.
abbrev pub Triple : Type 0
Triple = ℕ × ℕ × ℕ

abbrev pub same_triple : Triple → Triple → Bool
same_triple k l = k.0 == l.0 && k.1 == l.1 && k.2 == l.2

pub same_triple-eq : (k l : Triple) → same_triple k l ≡ true → k ≡ l
same_triple-eq k l h = ground arith

pub same_triple_refl : (k : Triple) → same_triple k k ≡ true
same_triple_refl k = ground arith

instance abbrev pub triple_keys : Keys Triple
triple_keys = record { same = same_triple; same_eq = same_triple-eq; same_self = same_triple_refl }

-- `stdev`, `mean` and the first and last of the inclusive quartiles of the `statistics` module.
pub record Deviation (F : Type 0) : Type 0 where
  pub stdev : List F → F
  pub mean : List F → F
  pub quartiles : List F → F × F

-- A launch's median of a benchmark, and its deviation where there is one.
pub record Score (F : Type 0) : Type 0 where
  pub middle : F
  pub deviation : Option F

pub record Row (F : Type 0) : Type 0 where
  pub condition : ℕ
  pub binary : ℕ
  pub benchmark : ℕ
  pub launches : ℕ
  pub repetitions : ℕ
  pub median_ns : F
  pub min_ns : F
  pub max_ns : F
  pub spread_pct : F
  pub launch_cv_pct : Option F
  pub iqr_pct : F
  pub within_cv_median_pct : Option F
  pub within_cv_max_pct : Option F

module _ {F : Type 0} where
  abbrev pub triple_of : Group F → Triple
  triple_of g = (g.key.condition, g.key.binary, g.benchmark)

  -- `[value for _, value in entries if value is not None]`
  abbrev pub deviations : List (Score F) → List F
  deviations [] = []
  deviations (s ∷ scores) = elim s.deviation [
    | none ↦ deviations scores
    | some v ↦ v ∷ deviations scores
  ]

module _ {F : Type 0} ⦃o : Order F⦄ ⦃a : Arith F⦄ (stats : Deviation F) where
  abbrev pub percent : F → F
  percent x = a.mul x (a.of_ℕ 100)

  abbrev pub cv : List F → Option F
  cv values =
      if ltb 1 (length values)
      then some (percent (a.div (stats.stdev values) (stats.mean values)))
      else none

  -- `values * 3` of a single value has it as both quartiles.
  abbrev pub quartiles_of : F → List F → F × F
  quartiles_of first [] = (first, first)
  quartiles_of first (v ∷ values) = stats.quartiles (first ∷ v ∷ values)

  abbrev pub iqr_percent : F → List F → F → F
  iqr_percent first values middle =
      let (low, high) = quartiles_of first values in percent (a.div (a.sub high low) middle)

  -- The score of a launch's repetitions; `none` is a median of nothing.
  abbrev pub score_from : List F → Option F → Option (Score F)
  score_from values none = none
  score_from values (some middle) = some (record { middle = middle; deviation = cv values })

  unfoldable pub score_of : Group F → Option (Score F)
  score_of g = let values = map (λ (t : ℕ × F). t.1) g.times in score_from values (median values)

  row_from : ℕ → Triple → List (Score F) → List F → Option F → Option (Row F)
  row_from repetitions k scores [] _ = none
  row_from repetitions k scores (first ∷ rest) none = none
  row_from repetitions k scores (first ∷ rest) (some middle) =
      let low = min_from first rest in
      let high = max_from first rest in
      some (record {
        condition = k.0;
        binary = k.1;
        benchmark = k.2;
        launches = length (first ∷ rest);
        repetitions = repetitions;
        median_ns = middle;
        min_ns = low;
        max_ns = high;
        spread_pct = percent (a.sub (a.div high low) (a.of_ℕ 1));
        launch_cv_pct = cv (first ∷ rest);
        iqr_pct = iqr_percent first rest middle;
        within_cv_median_pct = median (deviations scores);
        within_cv_max_pct = max_of (deviations scores);
      })

  -- The row of one benchmark.
  unfoldable pub row_of : ℕ → Triple × List (Score F) → Option (Row F)
  unfolding row_from
  row_of repetitions (k, scores) =
      let medians = map (λ (s : Score F). s.middle) scores in
      row_from repetitions k scores medians (median medians)

  and_score :
      Triple
      → Option (Score F)
      → Option (List (Triple × Score F))
      → Option (List (Triple × Score F))
  and_score k (some s) (some scores) = some ((k, s) ∷ scores)
  and_score k _ _ = none

  -- The loop over the groups of the samples, each with its key.
  unfoldable pub scores_of : List (Group F) → Option (List (Triple × Score F))
  unfolding and_score
  scores_of [] = some []
  scores_of (g ∷ groups) = and_score (triple_of g) (score_of g) (scores_of groups)

  and_row : Option (Row F) → Option (List (Row F)) → Option (List (Row F))
  and_row (some row) (some rows) = some (row ∷ rows)
  and_row _ _ = none

  unfoldable pub rows_from : ℕ → Groups Triple (Score F) → Option (List (Row F))
  unfolding and_row
  rows_from repetitions [] = some []
  rows_from repetitions (g ∷ groups) = and_row (row_of repetitions g) (rows_from repetitions groups)

  -- `natural` is what the table is sorted by.
  module _ {N : Type 0} ⦃by : Order N⦄ (natural : Triple → N) where
    unfoldable pub grouped_rows : ℕ → Option (List (Triple × Score F)) → Option (List (Row F))
    unfolding rows_from
    grouped_rows repetitions none = none
    grouped_rows repetitions (some scores) = rows_from repetitions (
        sorted (λ (g : Triple × List (Score F)). natural g.0)
          (group_all (λ (s : Triple × Score F). s.0) (λ s. s.1) scores []))

    unfoldable pub benchmark_rows : ℕ → List (Group F) → Option (List (Row F))
    unfolding grouped_rows
    benchmark_rows repetitions groups = grouped_rows repetitions (scores_of groups)
