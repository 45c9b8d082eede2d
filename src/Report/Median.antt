-- ===== src/Report/Median.antt =====
-- `median` of scripts/report/bench_report.py.
pub mod Laws
use matching_machine.Prelude.{
  ℕ, ◌+◌, ◌-◌, ◌/◌, ◌%◌, Bool, true, false, Option, none, some, List, [], ◌∷◌, ◌==◌, if◌then◌else◌,
  length, get_elem?,
}
use matching_machine.Report.Floats.{Order, Arith, le}
use matching_machine.Report.Sort.{sorted}

module _ {F : Type 0} ⦃o : Order F⦄ ⦃a : Arith F⦄ where
  -- `(x + y) / 2`, where either index may be out of range
  unfoldable pub mean_of : Option F → Option F → Option F
  mean_of (some x) (some y) = some (a.div (a.add x y) (a.of_ℕ 2))
  mean_of _ _ = none

  -- `none` is the `IndexError` on an empty list.
  unfoldable pub median : List F → Option F
  unfolding sorted mean_of
  median values =
      let s = sorted (λ v. v) values in
      let k = length s / 2 in
      if length s % 2 == 1 then get_elem? s k else mean_of (get_elem? s (k - 1)) (get_elem? s k)
