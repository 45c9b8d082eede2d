-- ===== src/Summary/Layout/Table/Rows.antt =====
-- What the layout rows say of the observations.
use matching_machine.Prelude.{
  ℕ, ◌≤◌, ◌≡◌, ◌≢◌, refl, ap, subst, ◌∙◌, ◌&&◌, ◌==◌, any, contains, if◌then◌else◌, Bool, List, [],
  ◌∷◌, map, select, count, length, length_pos, ltb, All, All-zip, arith, Bool-cases, inl, inr,
}
use matching_machine.Report.Floats.{Order, Arith, nat_order}
use matching_machine.Report.Sort.{sorted, IsSorted, All-sorted, count-sorted, sorted-IsSorted}
use matching_machine.Effects.{ok}
use matching_machine.Effects.Checks.{Holds, Holds-bind}
use matching_machine.Summary.Layout.Observed.{
  AreObservations, layouts, layout_observations-AreObservations,
}
use matching_machine.Summary.{Key, LaunchRow}
use matching_machine.Summary.Grouping.{Groups, group_all}
use matching_machine.Summary.Grouping.Laws.{
  weight, weight_ones, map_same, total, group_all-Grouped, total-sorted,
}
use matching_machine.Summary.Layout.{Observation, Reader, File}
use matching_machine.Summary.Layout.Table.{
  LayoutRow, LaunchLayout, elements, size, union, ordered, pair_of, layout_row, layout_table,
  is_varying, listing_key, listed, launch_layout, rows_of, layout_rows,
}
use matching_machine.Summary.Layout.Table.Lexicographic.{list_order}
use matching_machine.Summary.Telemetry.{Pair, same_pair, pair_keys, pair_order}

-- The observations of a condition and binary.
abbrev pub mine : Pair → List Observation → List Observation
mine k observations = select (λ v. same_pair (pair_of v) k) observations

-- A list has the elements of another, ascending and each once.
abbrev pub IsSetOf : List ℕ → List ℕ → Type 0
IsSetOf set xs =
    IsSorted (λ (x : ℕ). x) set
    × ((x : ℕ) → count (λ y. x == y) set ≡ (if contains xs x then 1 else 0))

count-elements :
    (xs : List ℕ) (x : ℕ) → count (λ y. x == y) (elements xs) ≡ (if contains xs x then 1 else 0)
unfolding elements
count-elements [] x = refl
count-elements (y ∷ xs) x = elim (Bool-cases (x == y)) [
  | inl e ↦
      let same : y ≡ x = ground arith in
      let rest = count-elements xs x in rw same (ground (arith, rest))
  | inr e ↦ let rest = count-elements xs x in ground (arith, rest)
]

ordered-IsSetOf : (xs : List ℕ) → IsSetOf (ordered xs) xs
ordered-IsSetOf xs =
    let by = λ (x : ℕ). x in
    (
      sorted-IsSorted by (elements xs),
      λ x. count-sorted by (λ y. x == y) (elements xs) ∙ count-elements xs x,
    )

-- A row is about the observations of its condition and binary, all of them and no other.
abbrev pub IsLayoutRow : List Observation → LayoutRow → Type 0
IsLayoutRow observations row =
    let values = mine (row.condition, row.binary) observations in
    (row.layout_launches ≡ length values)
    × (1 ≤ row.layout_launches)
    × (row.unique_addresses ≡ size (union (λ v. v.address) values))
    × IsSetOf row.mod64_values (union (λ v. v.mod64) values)
    × (row.unique_mod64 ≡ size (union (λ v. v.mod64) values))
    × (row.unique_mod4096 ≡ size (union (λ v. v.mod4096) values))
    × (row.multi_mod64_launches ≡ count (λ v. ltb 1 (size v.mod64)) values)
    × (row.multi_mod4096_launches ≡ count (λ v. ltb 1 (size v.mod4096)) values)

IsGroup : List Observation → Pair × List Observation → Type 0
IsGroup observations (k, values) = (values ≡ mine k observations) × (values ≢ [])

layout_row-IsLayoutRow :
    (observations : List Observation) (g : Pair × List Observation)
    → IsGroup observations g
    → IsLayoutRow observations (layout_row g)
unfolding IsGroup layout_row
layout_row-IsLayoutRow observations (k, values) (same, ne) = (
  ap length same,
  length_pos values ne,
  ap (λ vs. size (union (λ v. v.address) vs)) same,
  subst (λ vs. IsSetOf (ordered (union (λ v. v.mod64) values)) (union (λ v. v.mod64) vs)) same
      (ordered-IsSetOf (union (λ v. v.mod64) values)),
  ap (λ vs. size (union (λ v. v.mod64) vs)) same,
  ap (λ vs. size (union (λ v. v.mod4096) vs)) same,
  ap (count (λ v. ltb 1 (size v.mod64))) same,
  ap (count (λ v. ltb 1 (size v.mod4096))) same,
)

-- The table's rows, each about its own observations and together about all.
abbrev pub IsLayoutTable : List Observation → List LayoutRow → Type 0
IsLayoutTable observations rows =
    All (IsLayoutRow observations) rows
    × (weight (λ row. row.layout_launches) rows ≡ length observations)

rows-IsLayoutTable :
    (observations : List Observation) (groups : Groups Pair Observation)
    → All (IsGroup observations) groups
    → All (IsLayoutRow observations) (map layout_row groups)
      × (weight (λ row. row.layout_launches) (map layout_row groups) ≡ total (λ _. 1) groups)
unfolding layout_row
rows-IsLayoutTable observations [] h = (tt, refl)
rows-IsLayoutTable observations (g ∷ groups) h =
    let (are, sum) = rows-IsLayoutTable observations groups h.1 in
    ((layout_row-IsLayoutRow observations g h.0, are), omega (arith, sum, weight_ones g.1))

layout_table-IsLayoutTable :
    (observations : List Observation) → IsLayoutTable observations (layout_table observations)
unfolding layout_table IsGroup
layout_table-IsLayoutTable observations =
    let by = λ (g : Pair × List Observation). g.0 in
    let gs = group_all pair_of (λ (v : Observation). v) observations [] in
    let g = group_all-Grouped pair_of (λ (v : Observation). v) observations in
    let are_groups : All (IsGroup observations) gs =
      All-zip gs
        (λ (x : Pair × List Observation) exact ne. (exact ∙ map_same (mine x.0 observations), ne))
        g.exact g.not_empty in
    let (are, sum) =
      rows-IsLayoutTable observations (sorted by gs)
        (All-sorted by (IsGroup observations) gs are_groups) in
    (
      are,
      sum
          ∙ total-sorted by (λ _. 1) gs
          ∙ g.all_rows (λ _. 1)
          ∙ weight_ones (map (λ v. v) observations)
          ∙ ap length (map_same observations),
    )

-- Whether a row with more than one residue is about the condition and binary of an observation.
abbrev pub has_varied : List LayoutRow → Observation → Bool
has_varied rows v =
    any
      (λ (row : LayoutRow).
        ltb 1 row.unique_mod64 && row.condition == v.key.condition && row.binary == v.key.binary)
      rows

count-select :
    (p q : Observation → Bool) (vs : List Observation)
    → count p (select q vs) ≡ count (λ v. p v && q v) vs
count-select p q [] = refl
count-select p q (v ∷ vs) = ground (arith, count-select p q vs)

is_varying-has_varied :
    (rows : List LayoutRow) (v : Observation) → is_varying rows (pair_of v) ≡ has_varied rows v
unfolding is_varying
is_varying-has_varied [] v = refl
is_varying-has_varied (row ∷ rows) v = ground (arith, is_varying-has_varied rows v)

module _ {F : Type 0} ⦃o : Order F⦄ ⦃a : Arith F⦄ {N : Type 0} ⦃by : Order N⦄ (natural : ℕ → N)
    (medians : Key → List (ℕ × F)) where
  -- What the row of a launch says: its key, its residues as a set, and its medians in milliseconds, by
  -- the natural order of the benchmarks' names.
  abbrev pub IsShown : Observation → LaunchLayout F → Type 0
  IsShown v l =
      (l.condition ≡ v.key.condition)
      × (l.binary ≡ v.key.binary)
      × (l.session ≡ v.key.session)
      × (l.block ≡ v.key.block)
      × IsSetOf l.mod64 v.mod64
      × (l.benchmark_ms
          ≡ map (λ (m : ℕ × F). (m.0, a.div m.1 (a.of_ℕ 1000000)))
              (sorted (λ (m : ℕ × F). natural m.0) (medians v.key)))

  abbrev pub AreShown : List Observation → List (LaunchLayout F) → Type 0
  AreShown [] [] = Unit
  AreShown (v ∷ vs) (l ∷ launches) = IsShown v l × AreShown vs launches
  AreShown _ _ = ⊥

  launch_layout-AreShown :
      (vs : List Observation) → AreShown vs (map (launch_layout natural medians) vs)
  unfolding launch_layout
  launch_layout-AreShown [] = tt
  launch_layout-AreShown (v ∷ vs) =
      ((refl, refl, refl, refl, ordered-IsSetOf v.mod64, refl), launch_layout-AreShown vs)

  -- The rows of the conditions, and behind them a row for each observation that has varied, in the order
  -- of their residues and keys.
  abbrev pub AreRows : List Observation → List LayoutRow × List (LaunchLayout F) → Type 0
  AreRows observations (rows, launches) =
      IsLayoutTable observations rows
      × (vs : List Observation) × AreShown vs launches
      × IsSorted listing_key vs
      × ((p : Observation → Bool) → count p vs ≡ count (λ v. p v && has_varied rows v) observations)

  count-listed :
      (rows : List LayoutRow) (observations : List Observation) (p : Observation → Bool)
      → count p (listed rows observations) ≡ count (λ v. p v && has_varied rows v) observations
  unfolding listed
  count-listed rows observations p =
      count-sorted listing_key p (select (λ v. is_varying rows (pair_of v)) observations)
      ∙ count-select p (λ v. is_varying rows (pair_of v)) observations
      ∙ same observations
    where
      same :
          (vs : List Observation)
          → count (λ v. p v && is_varying rows (pair_of v)) vs
            ≡ count (λ v. p v && has_varied rows v) vs
      same [] = refl
      same (v ∷ vs) = ground (arith, is_varying-has_varied rows v, same vs)

  rows_of-AreRows :
      (observations : List Observation)
      → AreRows observations (rows_of natural medians observations)
  unfolding rows_of listed
  rows_of-AreRows observations =
      let rows = layout_table observations in
      (
        layout_table-IsLayoutTable observations,
        listed rows observations,
        launch_layout-AreShown (listed rows observations),
        sorted-IsSorted listing_key (select (λ v. is_varying rows (pair_of v)) observations),
        count-listed rows observations,
      )

  -- The rows of the observations of all layout logs.
  abbrev pub AreRowsOf :
      Reader → List LaunchRow → List File → List LayoutRow × List (LaunchLayout F) → Type 0
  AreRowsOf reader launches files rows =
      (observations : List Observation) × AreObservations launches reader files
        (layouts launches reader files files []) observations
      × AreRows observations rows

  -- If all layout logs are accepted, the rows are those of one observation for each log with layout
  -- lines: of the only recorded launch of the log's session and block and the condition in its metadata,
  -- no two of the same one, with the addresses of all lines and their residues. The rows together count
  -- each observation once, and each is about all observations of its condition and binary, of which there
  -- is at least one: their addresses and residues, and how many have several. Behind them stand the
  -- launches whose condition and binary have a row with more than one residue modulo 64, all of these
  -- and no other, in the order of their residues and keys, each with its key, its residues and its
  -- medians.
  pub layout_rows-AreRows :
      (reader : Reader) (launches : List LaunchRow) (files : List File)
      → Holds (AreRowsOf reader launches files) (layout_rows natural medians reader launches files)
  unfolding layout_rows
  layout_rows-AreRows reader launches files =
      Holds-bind _ (AreRowsOf reader launches files) _
        (λ observations. ok (rows_of natural medians observations))
        (layout_observations-AreObservations launches reader files)
        (λ observations h. (observations, h, rows_of-AreRows observations))
