-- ===== src/Summary/Telemetry/Rows.antt =====
-- What the telemetry table says of the launches.
use matching_machine.Effects.{Result, ok, raise}
use matching_machine.Prelude.{
  ℕ, ◌≤◌, ◌≡◌, ◌≢◌, refl, ap, ◌∙◌, subst, true, false, not, some, List, [], ◌∷◌, ◌==◌, map, any,
  count, length, select, All, All-zip, arith, if◌then◌else◌, if_both,
}
use matching_machine.Report.Floats.{Order, Arith, lt}
use matching_machine.Report.Extremes.{max_of}
use matching_machine.Report.Sort.{sorted, All-sorted}
use matching_machine.Report.Median.{median}
use matching_machine.Report.Median.Laws.{median-Halves}
use matching_machine.Summary.Grouping.{Groups, group_all}
use matching_machine.Summary.Grouping.Laws.{
  weight, weight_ones, map_same, total, NotEmpty, group_all-Grouped, total-sorted, rows_of,
}
use matching_machine.Summary.Telemetry.{
  Pair, same_pair, pair_keys, pair_order, Launch, Row, Fault, wall_not_positive, pair_of, sum_of,
  foreign_of, is_not_positive, with_values, row_of, and_rows, rows_from, telemetry_rows,
}

module _ {F : Type 0} ⦃o : Order F⦄ ⦃a : Arith F⦄ where
  -- The launches of a condition and a binary.
  abbrev pub mine : Pair → List (Launch F) → List (Launch F)
  mine k launches = select (λ r. same_pair (pair_of r) k) launches

  -- A row is about the launches of its condition and binary, all of them and no other.
  abbrev pub IsRow : List (Launch F) → Row F → Type 0
  IsRow launches row =
      let records = mine (row.condition, row.binary) launches in
      (row.launches ≡ length records)
      × (1 ≤ row.launches)
      × (row.throttle_core ≡ sum_of (λ r. r.throttle_core) records)
      × (row.throttle_package ≡ sum_of (λ r. r.throttle_package) records)
      × (row.device_irqs ≡ sum_of (λ r. r.device_irqs) records)
      × (row.thermal_irqs ≡ sum_of (λ r. r.thermal_irqs) records)
      × (median (foreign_of records) ≡ some row.foreign_median)
      × (max_of (foreign_of records) ≡ some row.foreign_max)
      × (row.foreign_above_5 ≡ count (λ v. lt (a.of_ℕ 5) v) (foreign_of records))

  abbrev pub all_launches : List (Row F) → ℕ
  all_launches rows = weight (λ row. row.launches) rows

  -- A table, or the error of a launch that took no time.
  abbrev pub IsTable : List (Launch F) → Result Fault (List (Row F)) → Type 0
  IsTable launches (ok rows) =
      All (IsRow launches) rows
      × (all_launches rows ≡ length launches)
      × (any is_not_positive launches ≡ false)
  IsTable launches (raise e) = (e ≡ wall_not_positive) × (any is_not_positive launches ≡ true)

  IsGroup : List (Launch F) → Pair × List (Launch F) → Type 0
  IsGroup launches (k, records) = (records ≡ mine k launches) × (records ≢ [])

  all_groups :
      (launches : List (Launch F)) (groups : Groups Pair (Launch F))
      → All
          (λ (g : Pair × List (Launch F)).
            g.1 ≡ map (λ r. r) (rows_of pair_of (λ r. r) g.0 launches))
          groups
      → All NotEmpty groups
      → All (IsGroup launches) groups
  unfolding IsGroup
  all_groups launches groups exact ne =
      All-zip groups
        (λ (g : Pair × List (Launch F)) e n.
          (e ∙ map_same (rows_of pair_of (λ r. r) g.0 launches), n))
        exact ne

  foreign_ne_nil : (records : List (Launch F)) → records ≢ [] → foreign_of records ≢ []
  foreign_ne_nil [] ne e = ne refl
  foreign_ne_nil (r ∷ records) ne e = cc

  max_of-some : (values : List F) → values ≢ [] → (m : F) × (max_of values ≡ some m)
  max_of-some [] ne = absurd (ne refl)
  max_of-some (v ∷ values) ne = (_, refl)

  length_ne_nil : (records : List (Launch F)) → records ≢ [] → 1 ≤ length records
  length_ne_nil [] ne = absurd (ne refl)
  length_ne_nil (r ∷ records) ne = omega arith

  -- The row of a group.
  abbrev IsRowOf : List (Launch F) → Pair × List (Launch F) → Result Fault (Row F) → Type 0
  IsRowOf launches (k, records) (ok row) =
      IsRow launches row × (row.launches ≡ length records) × (any is_not_positive records ≡ false)
  IsRowOf launches (k, records) (raise e) =
      (e ≡ wall_not_positive) × (any is_not_positive records ≡ true)

  row_of-IsRowOf :
      (launches : List (Launch F)) (g : Pair × List (Launch F))
      → IsGroup launches g
      → IsRowOf launches g (row_of g)
  unfolding row_of with_values IsGroup
  row_of-IsRowOf launches (k, records) (exact, ne) =
      let (middle, e, halves) = median-Halves (foreign_of records) (foreign_ne_nil records ne) in
      let (most, f) = max_of-some (foreign_of records) (foreign_ne_nil records ne) in
      if_both (IsRowOf launches (k, records)) (any is_not_positive records) _ _ (λ bad. (refl, bad))
        (λ good.
          rw (e, f)
            (
              subst
                  (λ (mine_of : List (Launch F)).
                    (length records ≡ length mine_of)
                    × (1 ≤ length records)
                    × (sum_of (λ r. r.throttle_core) records
                        ≡ sum_of (λ r. r.throttle_core) mine_of)
                    × (sum_of (λ r. r.throttle_package) records
                        ≡ sum_of (λ r. r.throttle_package) mine_of)
                    × (sum_of (λ r. r.device_irqs) records ≡ sum_of (λ r. r.device_irqs) mine_of)
                    × (sum_of (λ r. r.thermal_irqs) records ≡ sum_of (λ r. r.thermal_irqs) mine_of)
                    × (median (foreign_of mine_of) ≡ some middle)
                    × (max_of (foreign_of mine_of) ≡ some most)
                    × (count (λ v. lt (a.of_ℕ 5) v) (foreign_of records)
                        ≡ count (λ v. lt (a.of_ℕ 5) v) (foreign_of mine_of)))
                  exact (refl, length_ne_nil records ne, refl, refl, refl, refl, e, f, refl),
              refl,
              good,
            ))

  abbrev bad : Launch F → ℕ
  bad r = if is_not_positive r then 1 else 0

  any-weight :
      (records : List (Launch F)) → any is_not_positive records ≡ not (weight bad records == 0)
  any-weight [] = refl
  any-weight (r ∷ records) = ground (arith, any-weight records)

  -- The table of some groups.
  abbrev IsTableOf : List (Launch F) → Groups Pair (Launch F) → Result Fault (List (Row F)) → Type 0
  IsTableOf launches groups (ok rows) =
      All (IsRow launches) rows
      × (all_launches rows ≡ total (λ _. 1) groups)
      × (total bad groups ≡ 0)
  IsTableOf launches groups (raise e) = (e ≡ wall_not_positive) × (1 ≤ total bad groups)

  with_row :
      (launches : List (Launch F)) (g : Pair × List (Launch F)) (groups : Groups Pair (Launch F))
      (row : Result Fault (Row F)) (rest : Result Fault (List (Row F)))
      → IsRowOf launches g row
      → IsTableOf launches groups rest
      → IsTableOf launches (g ∷ groups) (elim row [ raise e ↦ raise e | ok r ↦ and_rows r rest ])
  unfolding and_rows
  with_row launches (k, records) groups (ok row) (ok rows) (about, many, good)
        (all, sum, none_bad) =
      (
        (about, all),
        omega (arith, many, sum, weight_ones records),
        ground (arith, any-weight records),
      )
  with_row launches (k, records) groups (ok row) (raise e) (about, many, good) (same, some_bad) =
      (same, omega (arith, some_bad))
  with_row launches (k, records) groups (raise e) rest (same, is_bad) table =
      (same, ground (arith, any-weight records))

  rows_from-IsTableOf :
      (launches : List (Launch F)) (groups : Groups Pair (Launch F))
      → All (IsGroup launches) groups
      → IsTableOf launches groups (rows_from groups)
  unfolding rows_from
  rows_from-IsTableOf launches [] h = (tt, omega arith, omega arith)
  rows_from-IsTableOf launches (g ∷ groups) h =
      with_row launches g groups (row_of g) (rows_from groups) (row_of-IsRowOf launches g h.0)
        (rows_from-IsTableOf launches groups h.1)

  whole :
      (launches : List (Launch F)) (groups : Groups Pair (Launch F))
      (result : Result Fault (List (Row F)))
      → ((w : Launch F → ℕ) → total w groups ≡ weight w launches)
      → IsTableOf launches groups result
      → IsTable launches result
  whole launches groups (ok rows) same (all, sum, good) = (
    all,
    sum ∙ same (λ _. 1) ∙ weight_ones launches,
    ground (arith, any-weight launches, same bad),
  )
  whole launches groups (raise e) same (which, some_bad) =
      (which, ground (arith, any-weight launches, same bad))

  -- If every launch took time, the telemetry table has rows that together count each launch once:
  -- a row's counters are the sums over the launches of its condition and binary, of which there is at
  -- least one, and its median, maximum and count of foreign time are those of the same launches.
  -- Otherwise the error of a launch that took no time is raised, and no other.
  pub telemetry_rows-IsTable :
      (launches : List (Launch F)) → IsTable launches (telemetry_rows launches)
  unfolding telemetry_rows
  telemetry_rows-IsTable launches =
      let groups = group_all pair_of (λ r. r) launches [] in
      let g = group_all-Grouped pair_of (λ (r : Launch F). r) launches in
      let by = λ (x : Pair × List (Launch F)). x.0 in
      whole launches (sorted by groups) _
        (λ w. total-sorted by w groups ∙ g.all_rows w ∙ ap (weight w) (map_same launches))
        (rows_from-IsTableOf launches (sorted by groups) (
          All-sorted by (IsGroup launches) groups (all_groups launches groups g.exact g.not_empty)))
