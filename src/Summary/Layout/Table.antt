-- ===== src/Summary/Layout/Table.antt =====
-- The rows that `layout_rows` in scripts/report/diagnose_report.py makes of its observations. The
-- residues of a cell are the list of numbers that it joins with semicolons.
pub mod Lexicographic
pub mod Rows
mod Tests
use matching_machine.Effects.{Result, ok, raise}
use matching_machine.Prelude.{
  ℕ, ◌+◌, Bool, true, false, ◌&&◌, ◌||◌, not, List, [], ◌∷◌, ◌++◌, ◌==◌, map, any, select, count,
  length, contains, ltb, if◌then◌else◌,
}
use matching_machine.Report.Floats.{Order, Arith, nat_order}
use matching_machine.Report.Sort.{sorted}
use matching_machine.Summary.{Key, LaunchRow}
use matching_machine.Summary.Grouping.{Groups, group_all}
use matching_machine.Summary.Layout.{Fault, File, Observation, Reader, layout_observations}
use matching_machine.Summary.Layout.Table.Lexicographic.{list_order}
use matching_machine.Summary.Telemetry.{Pair, same_pair, pair_keys, pair_order}

-- A row of a condition and binary.
pub record LayoutRow : Type 0 where
  pub condition : ℕ
  pub binary : ℕ
  pub layout_launches : ℕ
  pub unique_addresses : ℕ
  pub mod64_values : List ℕ
  pub unique_mod64 : ℕ
  pub unique_mod4096 : ℕ
  pub multi_mod64_launches : ℕ
  pub multi_mod4096_launches : ℕ

-- A row of a launch, with its median of each benchmark in milliseconds.
pub record LaunchLayout (F : Type 0) : Type 0 where
  pub condition : ℕ
  pub binary : ℕ
  pub session : ℕ
  pub block : ℕ
  pub mod64 : List ℕ
  pub benchmark_ms : List (ℕ × F)

-- The elements of a set, of which a list may have repetitions.
unfoldable pub elements : List ℕ → List ℕ
elements [] = []
elements (x ∷ xs) = if contains xs x then elements xs else x ∷ elements xs

abbrev pub size : List ℕ → ℕ
size xs = length (elements xs)

-- `set().union(*(v[field] for v in launches_values))`
unfoldable pub union : (Observation → List ℕ) → List Observation → List ℕ
union field [] = []
union field (v ∷ values) = field v ++ union field values

abbrev pub ordered : List ℕ → List ℕ
ordered xs = sorted (λ x. x) (elements xs)

-- `key[2:]`
abbrev pub pair_of : Observation → Pair
pair_of v = (v.key.condition, v.key.binary)

unfoldable pub layout_row : Pair × List Observation → LayoutRow
unfolding union elements
layout_row (k, values) = record {
  condition = k.0;
  binary = k.1;
  layout_launches = length values;
  unique_addresses = size (union (λ v. v.address) values);
  mod64_values = ordered (union (λ v. v.mod64) values);
  unique_mod64 = size (union (λ v. v.mod64) values);
  unique_mod4096 = size (union (λ v. v.mod4096) values);
  multi_mod64_launches = count (λ v. ltb 1 (size v.mod64)) values;
  multi_mod4096_launches = count (λ v. ltb 1 (size v.mod4096)) values;
}

unfoldable pub layout_table : List Observation → List LayoutRow
unfolding layout_row
layout_table observations =
    map layout_row
      (sorted (λ (g : Pair × List Observation). g.0) (group_all pair_of (λ v. v) observations []))

-- `varying`, as a test
unfoldable pub is_varying : List LayoutRow → Pair → Bool
is_varying rows k =
    any (λ (row : LayoutRow). ltb 1 row.unique_mod64 && same_pair (row.condition, row.binary) k)
      rows

-- The sort key: the residues, then the key of the launch.
abbrev pub listing_key : Observation → List (List ℕ)
listing_key v =
    ordered v.mod64 ∷ (v.key.session ∷ v.key.block ∷ v.key.condition ∷ v.key.binary ∷ []) ∷ []

unfoldable pub listed : List LayoutRow → List Observation → List Observation
unfolding is_varying
listed rows observations =
    sorted listing_key (select (λ v. is_varying rows (pair_of v)) observations)

module _ {F : Type 0} ⦃o : Order F⦄ ⦃a : Arith F⦄ {N : Type 0} ⦃by : Order N⦄ (natural : ℕ → N)
    (medians : Key → List (ℕ × F)) where
  unfoldable pub launch_layout : Observation → LaunchLayout F
  launch_layout v = record {
    condition = v.key.condition;
    binary = v.key.binary;
    session = v.key.session;
    block = v.key.block;
    mod64 = ordered v.mod64;
    benchmark_ms =
        map (λ (m : ℕ × F). (m.0, a.div m.1 (a.of_ℕ 1000000)))
          (sorted (λ (m : ℕ × F). natural m.0) (medians v.key));
  }

  -- The rows of the conditions, then those of the launches whose residues vary.
  unfoldable pub rows_of : List Observation → List LayoutRow × List (LaunchLayout F)
  unfolding layout_table listed launch_layout
  rows_of observations =
      let rows = layout_table observations in (rows, map launch_layout (listed rows observations))

  -- What is observed comes last one first, which the sorted rows do not depend on.
  unfoldable pub layout_rows :
      Reader → List LaunchRow → List File → Result Fault (List LayoutRow × List (LaunchLayout F))
  unfolding layout_observations rows_of
  layout_rows reader launches files = elim (layout_observations reader launches files) [
    | raise e ↦ raise e
    | ok observations ↦ ok (rows_of observations)
  ]
