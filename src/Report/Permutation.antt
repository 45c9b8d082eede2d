-- ===== src/Report/Permutation.antt =====
-- The permutation test of scripts/report/bench_report.py: `p_value` and `rank_sum_test`. The random
-- generator is its state and `shuffle`.
pub mod Bounds
use matching_machine.Prelude.{
  ℕ, zero, suc, ◌+◌, Bool, true, false, Option, none, some, List, [], ◌∷◌, ◌++◌, ◌==◌,
  if◌then◌else◌, length, take, drop, count,
}
use matching_machine.Report.Floats.{Order, Arith, le}

-- `random.Random`: `shuffle` gives the list in another order and moves the generator on.
pub record Random (S F : Type 0) : Type 0 where
  pub shuffle : S → List F → S × List F

module _ {F : Type 0} ⦃o : Order F⦄ ⦃a : Arith F⦄ where
  -- The values of `null` that are at least the one observed.
  unfoldable pub at_least : F → List F → ℕ
  at_least observed null = count (λ v. le observed v) null

  unfoldable pub p_value : List F → F → F
  unfolding at_least
  p_value null observed = a.div (a.of_ℕ (at_least observed null + 1)) (a.of_ℕ (length null + 1))

  -- `sum`, from a total on
  unfoldable pub sum_from : F → List F → F
  sum_from total [] = total
  sum_from total (v ∷ values) = sum_from (a.add total v) values

  -- The loop of `statistic`, from an index and a total on; `none` is a `ZeroDivisionError`.
  unfoldable pub statistic_from : List F → List ℕ → ℕ → F → Option F
  unfolding sum_from
  statistic_from r [] i total = some total
  statistic_from r (size ∷ sizes) i total =
      let part = sum_from (a.of_ℕ 0) (take size (drop i r)) in
      let rest =
        statistic_from r sizes (i + size) (a.add total (a.div (a.mul part part) (a.of_ℕ size))) in
      if size == 0 then none else rest

  unfoldable pub statistic : List ℕ → List F → Option F
  unfolding statistic_from
  statistic sizes r = statistic_from r sizes 0 (a.of_ℕ 0)

  -- `null.append`, where either part may have failed
  unfoldable pub append_some : List F → Option F → Option (List F)
  append_some null none = none
  append_some null (some v) = some (null ++ v ∷ [])

  module _ {S : Type 0} (random : Random S F) where
    -- The loop of `rank_sum_test`: the generator, and the statistics of the shuffles.
    unfoldable pub shuffled : List ℕ → (n : ℕ) → S → List F → Option (List F) → S × Option (List F)
    unfolding statistic append_some
    shuffled sizes n rng r none = (rng, none)
    shuffled sizes zero rng r (some null) = (rng, some null)
    shuffled sizes (suc n) rng r (some null) =
        let (rng', r') = random.shuffle rng r in
        shuffled sizes n rng' r' (append_some null (statistic sizes r'))

    -- The p of the whole, from what was observed and the loop's statistics.
    unfoldable pub p_of : Option (List F) → F → Option F
    unfolding p_value
    p_of none observed = none
    p_of (some null) observed = some (p_value null observed)

    -- The test behind the statistic of the list as given.
    unfoldable pub test_with : List F → List ℕ → (n : ℕ) → S → Option F → S × Option F
    unfolding shuffled p_of
    test_with rank_list sizes n rng none = (rng, none)
    test_with rank_list sizes n rng (some observed) =
        let (rng', null) = shuffled sizes n rng rank_list (some []) in (rng', p_of null observed)

    unfoldable pub rank_sum_test : List F → List ℕ → (n : ℕ) → S → S × Option F
    unfolding test_with
    rank_sum_test rank_list sizes n rng =
        test_with rank_list sizes n rng (statistic sizes rank_list)
