-- ===== src/Summary/Telemetry.antt =====
-- The telemetry table of `summarize` in scripts/report/diagnose_report.py: the launches of each
-- condition and binary, with what disturbed them. Counters are whole numbers, times are floats.
pub mod Rows
mod Tests
use matching_machine.Effects.{Result, ok, raise}
use matching_machine.Prelude.{
  ℕ, ◌+◌, ◌≡◌, ◌⊎◌, Bool, true, false, ◌&&◌, ◌||◌, Option, none, some, List, [], ◌∷◌, ◌==◌, map,
  any, count, length, if◌then◌else◌, leb, ltb, arith,
}
use matching_machine.Report.Floats.{Order, Arith, le, lt}
use matching_machine.Report.Extremes.{max_from, max_of}
use matching_machine.Report.Sort.{sorted}
use matching_machine.Report.Median.{median}
use matching_machine.Summary.Grouping.{Keys, Groups, group_all}

-- Condition and binary.
abbrev pub Pair : Type 0
Pair = ℕ × ℕ

abbrev pub same_pair : Pair → Pair → Bool
same_pair k l = k.0 == l.0 && k.1 == l.1

pub same_pair-eq : (k l : Pair) → same_pair k l ≡ true → k ≡ l
same_pair-eq k l h = ground arith

pub same_pair_refl : (k : Pair) → same_pair k k ≡ true
same_pair_refl k = ground arith

instance abbrev pub pair_keys : Keys Pair
pair_keys = record { same = same_pair; same_eq = same_pair-eq; same_self = same_pair_refl }

-- Tuples are ordered by their first component, then by the second.
abbrev pub le_pair : Pair → Pair → Bool
le_pair k l = ltb k.0 l.0 || (k.0 == l.0 && leb k.1 l.1)

pub le_pair_total : (k l : Pair) → (le_pair k l ≡ true) ⊎ (le_pair l k ≡ true)
le_pair_total k l = ground arith

pub le_pair_trans : (k l m : Pair) → le_pair k l ≡ true → le_pair l m ≡ true → le_pair k m ≡ true
le_pair_trans k l m p q = ground arith

instance abbrev pub pair_order : Order Pair
pair_order = record { le = le_pair; le_total = le_pair_total; le_trans = le_pair_trans }

-- A row of launches.csv, as far as the table reads it.
pub record Launch (F : Type 0) : Type 0 where
  pub condition : ℕ
  pub binary : ℕ
  pub wall_s : F
  pub foreign_ms : F
  pub suspended_s : F
  pub throttle_core : ℕ
  pub throttle_package : ℕ
  pub device_irqs : ℕ
  pub thermal_irqs : ℕ

pub record Row (F : Type 0) : Type 0 where
  pub condition : ℕ
  pub binary : ℕ
  pub launches : ℕ
  pub throttle_core : ℕ
  pub throttle_package : ℕ
  pub device_irqs : ℕ
  pub thermal_irqs : ℕ
  pub suspended_s : F
  pub foreign_median : F
  pub foreign_max : F
  pub foreign_above_5 : ℕ

-- `wall_not_positive` is the table's own error, `no_values` a `median` or `max` of nothing.
pub data Fault : Type 0 where
  wall_not_positive no_values : Fault

module _ {F : Type 0} where
  abbrev pub pair_of : Launch F → Pair
  pair_of r = (r.condition, r.binary)

  -- `sum(values(field))` of a counter
  abbrev pub sum_of : (Launch F → ℕ) → List (Launch F) → ℕ
  sum_of field [] = 0
  sum_of field (r ∷ records) = field r + sum_of field records

module _ {F : Type 0} ⦃o : Order F⦄ ⦃a : Arith F⦄ where
  abbrev pub sum_seconds : List (Launch F) → F → F
  sum_seconds [] total = total
  sum_seconds (r ∷ records) total = sum_seconds records (a.add total r.suspended_s)

  abbrev pub foreign_of : List (Launch F) → List F
  foreign_of records = map (λ r. a.div r.foreign_ms r.wall_s) records

  abbrev pub is_not_positive : Launch F → Bool
  is_not_positive r = le r.wall_s (a.of_ℕ 0)

  with_values : Pair → List (Launch F) → Option F → Option F → Result Fault (Row F)
  with_values (condition, binary) records (some middle) (some most) = ok (record {
    condition = condition;
    binary = binary;
    launches = length records;
    throttle_core = sum_of (λ r. r.throttle_core) records;
    throttle_package = sum_of (λ r. r.throttle_package) records;
    device_irqs = sum_of (λ r. r.device_irqs) records;
    thermal_irqs = sum_of (λ r. r.thermal_irqs) records;
    suspended_s = sum_seconds records (a.of_ℕ 0);
    foreign_median = middle;
    foreign_max = most;
    foreign_above_5 = count (λ v. lt (a.of_ℕ 5) v) (foreign_of records);
  })
  with_values k records _ _ = raise no_values

  -- The row of one condition and binary.
  unfoldable pub row_of : Pair × List (Launch F) → Result Fault (Row F)
  unfolding with_values
  row_of (k, records) =
      let foreign = foreign_of records in
      if any is_not_positive records
      then raise wall_not_positive
      else with_values k records (median foreign) (max_of foreign)

  and_rows : Row F → Result Fault (List (Row F)) → Result Fault (List (Row F))
  and_rows row (ok rows) = ok (row ∷ rows)
  and_rows row (raise e) = raise e

  unfoldable pub rows_from : Groups Pair (Launch F) → Result Fault (List (Row F))
  unfolding and_rows
  rows_from [] = ok []
  rows_from (g ∷ groups) = elim (row_of g) [
    | raise e ↦ raise e
    | ok row ↦ and_rows row (rows_from groups)
  ]

  -- The loop over the sorted groups of the launches.
  unfoldable pub telemetry_rows : List (Launch F) → Result Fault (List (Row F))
  unfolding rows_from
  telemetry_rows launches =
      rows_from
        (sorted (λ (g : Pair × List (Launch F)). g.0) (group_all pair_of (λ r. r) launches []))
