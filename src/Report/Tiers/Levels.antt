-- ===== src/Report/Tiers/Levels.antt =====
-- The levels and the shares of the tiers.
use mathlib.Core.Option
use matching_machine.Prelude.{
  ℕ, ◌≤◌, ◌≡◌, ◌≢◌, Bool, true, not, Option, none, some, List, [], any, count, length, All,
}
use matching_machine.Report.Floats.{Order, Arith, le, lt, nat_order}
use matching_machine.Report.Tiers.Cells.{placed, placed_slow, tiers_of}
use matching_machine.Report.Tiers.Shares.{number_keys, Cell, Tiers, all_cells, is_slow}
use matching_machine.Summary.Grouping.Laws.{weight}

module _ {F : Type 0} ⦃o : Order F⦄ ⦃a : Arith F⦄ where
  -- Levels with a property, as many as there are launches with a cell that passes a test.
  abbrev AreLevels : (F → Type 0) → ℕ → Option (List F) → Type 0
  AreLevels Q n none = ⊥
  AreLevels Q n (some levels) = All Q levels × (length levels ≡ n)

  abbrev any_fast : F → List (Cell F) → Bool
  any_fast threshold cells = any (λ c. not (is_slow threshold c)) cells

  abbrev any_slow : F → List (Cell F) → Bool
  any_slow threshold cells = any (λ c. is_slow threshold c) cells

  -- The share of a placement: the slow ones of its cells, of which there is at least one.
  abbrev pub IsShare : F → List (Cell F) → ℕ × F → Type 0
  IsShare threshold cells (p, x) =
      (1 ≤ placed p cells)
      × (x ≡ a.div (a.of_ℕ (placed_slow threshold p cells)) (a.of_ℕ (placed p cells)))

  IsTiersOf : F → List (Cell F) → ℕ × List Bool → Type 0
  IsTiersOf threshold cells (p, tiers) = (tiers ≢ []) × (tiers ≡ tiers_of threshold p cells)

  -- What a summary says of the launches.
  pub record IsSummary (launches : List (List (Cell F))) (t : Tiers F) : Type 0 where
    pub fast_below : All (λ m. le m t.threshold ≡ true) t.fast
    pub fast_launches : length t.fast ≡ count (any_fast t.threshold) launches
    pub slow_above : All (λ m. lt t.threshold m ≡ true) t.slow
    pub slow_launches : length t.slow ≡ count (any_slow t.threshold) launches
    pub are_shares : All (IsShare t.threshold (all_cells launches)) t.share
    pub all_shares :
        weight (λ (s : ℕ × F). placed s.0 (all_cells launches)) t.share
        ≡ length (all_cells launches)
    pub few_both : t.both ≤ length t.slow

  -- The summary of what `tier_threshold` gives.
  abbrev pub IsResult :
      List (List (Cell F)) → Option (Option (F × F)) → Option (Option (Tiers F)) → Type 0
  IsResult launches t none = t ≡ none
  IsResult launches t (some none) = t ≡ some none
  IsResult launches t (some (some tiers)) =
      (t ≡ some (some (tiers.threshold, tiers.gap))) × IsSummary launches tiers
