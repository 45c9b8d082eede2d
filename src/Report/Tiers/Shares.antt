-- ===== src/Report/Tiers/Shares.antt =====
-- `tier_summary` of scripts/report/bench_report.py: the launches on each side of the threshold.
use mathlib.Core.Option
use matching_machine.Prelude.{
  ℕ, ◌≡◌, arith, Bool, true, false, ◌&&◌, not, Option, none, some, List, [], ◌∷◌, ◌++◌, ◌==◌, map,
  all, any, select, count, length, if◌then◌else◌,
}
use matching_machine.Report.Floats.{Order, Arith, lt, nat_order}
use matching_machine.Report.Sort.{sorted}
use matching_machine.Report.Median.{median}
use matching_machine.Report.Tiers.{Real, tier_threshold}
use matching_machine.Summary.Grouping.{Keys, Groups, group_all}

pub eq_of_same : (m n : ℕ) → (m == n) ≡ true → m ≡ n
eq_of_same m n h = ground arith

pub same_refl : (m : ℕ) → (m == m) ≡ true
same_refl m = ground arith

instance abbrev pub number_keys : Keys ℕ
number_keys = record { same = ◌==◌; same_eq = eq_of_same; same_self = same_refl }

-- A measured instance of a launch: the region and the placement are its key in the launch.
pub record Cell (F : Type 0) : Type 0 where
  pub region : ℕ
  pub placement : ℕ
  pub value : F

pub record Tiers (F : Type 0) : Type 0 where
  pub threshold : F
  pub gap : F
  pub fast : List F
  pub slow : List F
  pub share : List (ℕ × F)
  pub both : ℕ

module _ {F : Type 0} where
  abbrev pub values_of : List (Cell F) → List F
  values_of cells = map (λ c. c.value) cells

  -- `[v for cells in launches.values() for v in cells.values()]`
  abbrev pub all_cells : List (List (Cell F)) → List (Cell F)
  all_cells [] = []
  all_cells (cells ∷ launches) = cells ++ all_cells launches

module _ {F : Type 0} ⦃o : Order F⦄ where
  -- `v > threshold`
  abbrev pub is_slow : F → Cell F → Bool
  is_slow threshold c = lt threshold c.value

  -- `tier.get((region, placement))`, where a cell that is missing is not slow
  unfoldable pub slow_at : F → (region placement : ℕ) → List (Cell F) → Bool
  slow_at threshold region placement [] = false
  slow_at threshold region placement (c ∷ cells) =
      if c.region == region && c.placement == placement
      then is_slow threshold c
      else slow_at threshold region placement cells

  unfoldable pub is_both : F → List (Cell F) → Bool
  unfolding slow_at
  is_both threshold cells =
      any (λ c. slow_at threshold c.region 0 cells && slow_at threshold c.region 1 cells) cells

  -- The loop's `share`: the tiers of each placement.
  unfoldable pub share_from : F → List (List (Cell F)) → Groups ℕ Bool → Groups ℕ Bool
  share_from threshold [] share = share
  share_from threshold (cells ∷ launches) share =
      share_from threshold launches
        (group_all (λ (c : Cell F). c.placement) (λ c. is_slow threshold c) cells share)

module _ {F : Type 0} ⦃o : Order F⦄ ⦃a : Arith F⦄ where
  unfoldable pub with_level : Option F → Option (List F) → Option (List F)
  with_level (some m) (some levels) = some (m ∷ levels)
  with_level _ _ = none

  -- `levels += [median(values)]`; `none` is a median of nothing.
  unfoldable pub add_level : List F → Option (List F) → Option (List F)
  unfolding with_level
  add_level values levels = with_level (median values) levels

  -- The levels of the fast tier, launch by launch; a launch without a fast cell has none.
  unfoldable pub fast_levels : F → List (List (Cell F)) → Option (List F)
  unfolding add_level
  fast_levels threshold [] = some []
  fast_levels threshold (cells ∷ launches) =
      let rest = fast_levels threshold launches in
      if not (all (λ c. is_slow threshold c) cells)
      then add_level (values_of (select (λ c. not (is_slow threshold c)) cells)) rest
      else rest

  unfoldable pub slow_levels : F → List (List (Cell F)) → Option (List F)
  unfolding add_level
  slow_levels threshold [] = some []
  slow_levels threshold (cells ∷ launches) =
      let rest = slow_levels threshold launches in
      if any (λ c. is_slow threshold c) cells
      then add_level (values_of (select (λ c. is_slow threshold c) cells)) rest
      else rest

  -- `sum(v) / len(v)`
  unfoldable pub share_of : ℕ × List Bool → ℕ × F
  share_of (p, tiers) = (p, a.div (a.of_ℕ (count (λ slow. slow) tiers)) (a.of_ℕ (length tiers)))

  unfoldable pub shares : F → List (List (Cell F)) → List (ℕ × F)
  unfolding share_from share_of
  shares threshold launches =
      map share_of (sorted (λ (g : ℕ × List Bool). g.0) (share_from threshold launches []))

  unfoldable pub summary_with :
      F → F → List (List (Cell F)) → (fast slow : Option (List F)) → Option (Tiers F)
  unfolding shares is_both
  summary_with threshold gap launches (some fast) (some slow) = some (record {
    threshold = threshold;
    gap = gap;
    fast = fast;
    slow = slow;
    share = shares threshold launches;
    both = count (λ cells. is_both threshold cells) launches;
  })
  summary_with threshold gap launches _ _ = none

  unfoldable pub summary_at : List (List (Cell F)) → Option (F × F) → Option (Option (Tiers F))
  unfolding fast_levels slow_levels summary_with
  summary_at launches none = some none
  summary_at launches (some (threshold, gap)) = Option.map some (
      summary_with threshold gap launches (fast_levels threshold launches)
        (slow_levels threshold launches))

  -- The outer `none` is the `ValueError` of `tier_threshold`, the inner one the result `None`.
  unfoldable pub tier_summary : Real F → List (List (Cell F)) → Option (Option (Tiers F))
  unfolding summary_at tier_threshold
  tier_summary real launches = elim (tier_threshold real (values_of (all_cells launches))) [
    | none ↦ none
    | some t ↦ summary_at launches t
  ]
