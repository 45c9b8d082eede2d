-- ===== src/Report/Tiers.antt =====
-- `tier_threshold` of scripts/report/bench_report.py: the split of per-item times into two tiers.
pub mod Gap
pub mod Cells
pub mod Levels
pub mod Shares
mod Tests
use matching_machine.Prelude.{
  ℕ, zero, suc, ◌+◌, ◌-◌, Bool, true, false, Option, none, some, List, [], ◌∷◌, if◌then◌else◌,
  length, get_elem?, map, any,
}
use matching_machine.Report.Floats.{Order, Arith, le, lt, eqv}
use matching_machine.Report.Sort.{sorted}
use matching_machine.Report.Permutation.{sum_from}

-- The functions of `math` and the start value -1.0; `log` is asked of positive values only.
pub record Real (F : Type 0) : Type 0 where
  pub log : F → F
  pub exp : F → F
  pub sqrt : F → F
  pub minus_one : F

module _ {F : Type 0} ⦃o : Order F⦄ ⦃a : Arith F⦄ (real : Real F) where
  -- The variance between the first `i` of `n` logarithms, with their sum, and the others.
  unfoldable pub between : (total : F) → (n i : ℕ) → (left : F) → F
  between total n i left =
      let w0 = a.div (a.of_ℕ i) (a.of_ℕ n) in
      let w1 = a.div (a.of_ℕ (n - i)) (a.of_ℕ n) in
      let d = a.sub (a.div left (a.of_ℕ i)) (a.div (a.sub total left) (a.of_ℕ (n - i))) in
      a.mul (a.mul w0 w1) (a.mul d d)

  -- The loop from index `i` on, where `previous` is `logs[i - 1]` and the list is `logs[i:]`.
  unfoldable pub find_split :
      (total : F) → (n i : ℕ) → (previous : F) → List F → (left best : F) → Option ℕ → Option ℕ
  unfolding between
  find_split total n i previous [] left best at = at
  find_split total n i previous (current ∷ logs) left best at =
      let left' = a.add left previous in
      let b = between total n i left' in
      let skipped = find_split total n (suc i) current logs left' best at in
      let better = find_split total n (suc i) current logs left' b (some i) in
      if eqv current previous then skipped else (if lt best b then better else skipped)

  unfoldable pub split_of : List F → Option ℕ
  unfolding find_split sum_from
  split_of [] = none
  split_of (v ∷ logs) =
      find_split (sum_from (a.of_ℕ 0) (v ∷ logs)) (length (v ∷ logs)) 1 v logs (a.of_ℕ 0)
        real.minus_one none

  -- The threshold and the gap.
  unfoldable pub around : Option F → Option F → Option (F × F)
  around (some l) (some h) =
      let low = real.exp l in
      let high = real.exp h in some (real.sqrt (a.mul low high), a.div high low)
  around _ _ = none

  unfoldable pub threshold_at : List F → Option ℕ → Option (F × F)
  unfolding around
  threshold_at logs none = none
  threshold_at logs (some k) = around (get_elem? logs (k - 1)) (get_elem? logs k)

  -- `math.log` raises a `ValueError` on a value that is not positive.
  abbrev pub has_no_log : List F → Bool
  has_no_log values = any (λ v. le v (a.of_ℕ 0)) values

  -- `tier_threshold` behind the logarithms
  unfoldable pub threshold_of : List F → Option (F × F)
  unfolding split_of threshold_at
  threshold_of logs = threshold_at logs (split_of logs)

  -- The outer `none` is the `ValueError`, the inner one the result `None`.
  unfoldable pub tier_threshold : List F → Option (Option (F × F))
  unfolding threshold_of sorted
  tier_threshold values =
      if has_no_log values
      then none
      else some (threshold_of (sorted (λ v. v) (map real.log values)))
