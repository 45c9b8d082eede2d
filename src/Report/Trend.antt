-- ===== src/Report/Trend.antt =====
-- `spearman` and `trend_test` of scripts/report/bench_report.py: whether the launch medians follow the
-- order of the launches.
pub mod Answers
mod Tests
use matching_machine.Prelude.{
  ℕ, zero, suc, ◌+◌, Bool, true, false, ◌||◌, List, [], ◌∷◌, ◌++◌, map, all, count, length,
  if◌then◌else◌, ltb,
}
use matching_machine.Report.Floats.{Order, Arith, le, eqv, nat_order}
use matching_machine.Report.Ranks.{ranks}
use matching_machine.Report.Permutation.{Random}

-- A float that may be `nan`.
pub data Number (F : Type 0) : Type 0 where
  nan : Number F
  number : F → Number F

-- `st.correlation` and `abs`.
pub record Correlation (F : Type 0) : Type 0 where
  pub correlation : List F → List F → F
  pub abs : F → F

-- `len(set(values)) < 2`
abbrev pub is_constant : {G : Type 0} → ⦃o : Order G⦄ → List G → Bool
is_constant [] = true
is_constant (v ∷ values) = all (λ w. eqv v w) values

-- `list(range(i, i + n))`
abbrev pub range_from : (i n : ℕ) → List ℕ
range_from i zero = []
range_from i (suc n) = i ∷ range_from (suc i) n

module _ {F : Type 0} ⦃o : Order F⦄ ⦃a : Arith F⦄ where
  -- `v >= observed`, false where either is `nan`
  abbrev pub reaches : Number F → Number F → Bool
  reaches (number observed) (number v) = le observed v
  reaches _ _ = false

  -- `p_value`
  unfoldable pub p_number : List (Number F) → Number F → F
  p_number null observed =
      a.div (a.of_ℕ (count (λ v. reaches observed v) null + 1)) (a.of_ℕ (length null + 1))

  -- `ranks`, whose model holds them doubled
  unfoldable pub rank_values : {G : Type 0} → ⦃p : Order G⦄ → List G → List F
  rank_values values = map (λ r. a.div (a.of_ℕ r) (a.of_ℕ 2)) (ranks values)

  module _ (st : Correlation F) where
    unfoldable pub spearman :
        {G H : Type 0} → ⦃p : Order G⦄ → ⦃q : Order H⦄ → List G → List H → Number F
    unfolding rank_values
    spearman x y =
        if ltb (length x) 3 || (is_constant x || is_constant y)
        then nan
        else number (st.correlation (rank_values x) (rank_values y))

    abbrev pub abs_of : Number F → Number F
    abs_of nan = nan
    abs_of (number v) = number (st.abs v)

    module _ {S : Type 0} (random : Random S F) where
      -- The loop: the generator, and the coefficients of the shuffles.
      unfoldable pub null_from :
          List ℕ → (n : ℕ) → S → List F → List (Number F) → S × List (Number F)
      unfolding spearman
      null_from order zero rng shuffled null = (rng, null)
      null_from order (suc n) rng shuffled null =
          let (rng', shuffled') = random.shuffle rng shuffled in
          null_from order n rng' shuffled' (null ++ abs_of (spearman order shuffled') ∷ [])

      unfoldable pub trend_test : List F → (n : ℕ) → S → S × Number F × F
      unfolding null_from p_number
      trend_test values n rng =
          let order = range_from 0 (length values) in
          let observed = spearman order values in
          let (rng', null) = null_from order n rng values [] in
          (rng', observed, p_number null (abs_of observed))
