-- ===== src/Report/Launches.antt =====
-- `launch_test` and `group_test` of scripts/report/bench_report.py: how far launches, and groups of
-- launches, are from each other. All times are positive.
pub mod Slices
pub mod Given
mod Tests
use matching_machine.Prelude.{
  ℕ, zero, suc, ◌+◌, ◌-◌, ◌*◌, ◌/◌, Option, none, some, List, [], ◌∷◌, ◌++◌, map, length, get_elem?,
  take, drop,
}
use matching_machine.Report.Extremes.{spread}
use matching_machine.Report.Floats.{Order, Arith}
use matching_machine.Report.Median.{median}
use matching_machine.Report.Permutation.{Random, append_some, rank_sum_test}
use matching_machine.Report.Sort.{sorted}
use matching_machine.Report.Tiers.Shares.{number_keys}
use matching_machine.Report.Trend.{rank_values}
use matching_machine.Summary.Grouping.{Groups, group_all}

abbrev pub concat {ℓ} : {A : Type ℓ} → List (List A) → List A
concat [] = []
concat (xs ∷ xss) = xs ++ concat xss

module _ {F : Type 0} ⦃o : Order F⦄ ⦃a : Arith F⦄ where
  unfoldable pub and_value : Option F → Option (List F) → Option (List F)
  and_value (some m) (some meds) = some (m ∷ meds)
  and_value _ _ = none

  -- `[median(g) for g in groups]`; `none` is the `IndexError` of a group without values.
  unfoldable pub medians_of : List (List F) → Option (List F)
  unfolding and_value
  medians_of [] = some []
  medians_of (g ∷ groups) = and_value (median g) (medians_of groups)

  -- `[v / m for g, m in zip(groups, meds) for v in g]`
  unfoldable pub relative : List (List F) → List F → List F
  relative [] meds = []
  relative (g ∷ groups) [] = []
  relative (g ∷ groups) (m ∷ meds) = map (λ v. a.div v m) g ++ relative groups meds

  -- The inner loop, from index `i` on: the medians of consecutive slices.
  unfoldable pub medians_from : List F → List ℕ → ℕ → Option (List F)
  unfolding and_value
  medians_from flat [] i = some []
  medians_from flat (size ∷ sizes) i =
      and_value (median (take size (drop i flat))) (medians_from flat sizes (i + size))

  unfoldable pub spread_of : Option (List F) → Option F
  unfolding spread
  spread_of none = none
  spread_of (some meds) = spread meds

  -- `scatter[int(0.95 * (len(scatter) - 1))]` of what is sorted; the product is a whole number of
  -- hundredths, and its rounding to a float does not reach the next whole number.
  unfoldable pub percentile_95 : List F → Option F
  unfolding sorted
  percentile_95 scatter = get_elem? (sorted (λ v. v) scatter) (95 * (length scatter - 1) / 100)

  unfoldable pub percentile_of : Option (List F) → Option F
  unfolding percentile_95
  percentile_of none = none
  percentile_of (some scatter) = percentile_95 scatter

  -- The three results, where none has failed.
  unfoldable pub triple_of : Option F → Option F → Option F → Option (F × F × F)
  triple_of (some s) (some expected) (some p) = some (s, expected, p)
  triple_of _ _ _ = none

  -- `zip(values, ranks(values), labels)`, each with its label first
  unfoldable pub labelled : List F → List F → List ℕ → List (ℕ × F × F)
  labelled (v ∷ values) (r ∷ rs) (g ∷ labels) = (g, v, r) ∷ labelled values rs labels
  labelled _ _ _ = []

  unfoldable pub members_of : List F → List ℕ → Groups ℕ (F × F)
  unfolding labelled group_all rank_values
  members_of values labels =
      group_all (λ (m : ℕ × F × F). m.0) (λ m. (m.1, m.2))
        (labelled values (rank_values values) labels) []

  unfoldable pub pair_of : Option F → Option F → Option (F × F)
  pair_of (some s) (some p) = some (s, p)
  pair_of _ _ = none

  module _ {S : Type 0} (random : Random S F) where
    -- The loop over the shuffles.
    unfoldable pub scatter_from :
        List ℕ → (n : ℕ) → S → List F → Option (List F) → S × Option (List F)
    unfolding medians_from spread_of append_some
    scatter_from sizes n rng flat none = (rng, none)
    scatter_from sizes zero rng flat (some scatter) = (rng, some scatter)
    scatter_from sizes (suc n) rng flat (some scatter) =
        let (rng', flat') = random.shuffle rng flat in
        scatter_from sizes n rng' flat'
          (append_some scatter (spread_of (medians_from flat' sizes 0)))

    unfoldable pub launch_test_with :
        List (List F) → Option (List F) → (n : ℕ) → S → S × Option (F × F × F)
    unfolding triple_of percentile_of scatter_from relative spread rank_sum_test rank_values
    launch_test_with groups none n rng = (rng, none)
    launch_test_with groups (some meds) n rng =
        let sizes = map length groups in
        let (rng', p) = rank_sum_test random (rank_values (concat groups)) sizes n rng in
        let (rng'', scatter) = scatter_from sizes n rng' (relative groups meds) (some []) in
        (rng'', triple_of (spread meds) (percentile_of scatter) p)

    unfoldable pub launch_test : List (List F) → (n : ℕ) → S → S × Option (F × F × F)
    unfolding launch_test_with medians_of
    launch_test groups n rng = launch_test_with groups (medians_of groups) n rng

    unfoldable pub group_test : List F → List ℕ → (n : ℕ) → S → S × Option (F × F)
    unfolding members_of pair_of spread_of medians_of rank_sum_test
    group_test values labels n rng =
        let members = map (λ (g : ℕ × List (F × F)). g.1) (members_of values labels) in
        let (rng', p) =
          rank_sum_test random (concat (map (λ m. map (λ (x : F × F). x.1) m) members))
            (map length members) n rng in
        (rng', pair_of (spread_of (medians_of (map (λ m. map (λ (x : F × F). x.0) m) members))) p)
