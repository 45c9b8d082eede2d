-- ===== src/Summary/Tables/Whole.antt =====
-- What the tables of an accepted study say.
use matching_machine.Effects.{Result, ok, raise}
use matching_machine.Prelude.{
  ℕ, suc, ◌-◌, ◌<◌, ◌≡◌, ◌≢◌, refl, sym, subst, Bool, true, List, [], ◌∷◌, map, length, All,
  All-map, set_eq, arith,
}
use matching_machine.Report.Floats.{Order, Arith}
use matching_machine.Summary
use matching_machine.Summary.Telemetry
use matching_machine.Summary.{
  LaunchRow, Sample, Group, Environment, numbers, range_from, or_default, summarize,
}
use matching_machine.Summary.Complete.{IsAccepted, summarize-IsAccepted}
use matching_machine.Summary.Scores.{Triple, Deviation, benchmark_rows}
use matching_machine.Summary.Scores.Rows.{HasTimes, IsRow, all_launches, benchmark_rows-IsTable}
use matching_machine.Summary.Telemetry.{telemetry_rows}
use matching_machine.Summary.Telemetry.Rows.{IsTable, telemetry_rows-IsTable}
use matching_machine.Summary.Tables.{
  Recorded, Stop, check, no_median, telemetry, Tables, repetitions_of, launch_row, launch_of,
  with_tables, tables_from, summarize_tables,
}

module _ {F : Type 0} where
  -- A group that has its repetitions has a time.
  full_ne_nil :
      (warmup n : ℕ) (times : List (ℕ × F))
      → set_eq (numbers times) (range_from warmup (suc n)) ≡ true
      → times ≢ []
  unfolding range_from
  full_ne_nil warmup n [] h e = cc
  full_ne_nil warmup n (t ∷ times) h e = cc

  full-HasTimes :
      (expected warmup : ℕ) (groups : List (Group F))
      → warmup < expected
      → All (λ g. set_eq (numbers g.times) (range_from warmup (expected - warmup)) ≡ true) groups
      → All (λ g. g.times ≢ []) groups
  full-HasTimes expected warmup groups l h =
      let n = expected - warmup - 1 in
      let some_left : expected - warmup ≡ suc n = omega arith in
      All-map groups
        (λ (g : Group F) full.
          full_ne_nil warmup n g.times
            (subst (λ m. set_eq (numbers g.times) (range_from warmup m) ≡ true) some_left full))
        h

module _ {F N : Type 0} ⦃o : Order F⦄ ⦃a : Arith F⦄ ⦃by : Order N⦄ (stats : Deviation F)
    (natural : Triple → N) where
  -- The tables of a study, from the outcome of its checks.
  abbrev pub AreTables :
      ℕ
      → List (Recorded F)
      → Result Summary.Fault (List (Group F))
      → Result Stop (Tables F)
      → Type 0
  AreTables n launches checked (raise (check e)) = checked ≡ raise e
  AreTables n launches checked (raise no_median) = ⊥
  AreTables n launches checked (raise (telemetry e)) =
      ((groups : List (Group F)) × (checked ≡ ok groups))
      × IsTable (map launch_of launches) (raise e)
  AreTables n launches checked (ok t) =
      ((groups : List (Group F)) × (checked ≡ ok groups)
        × All (IsRow groups n) t.benchmarks
        × (all_launches t.benchmarks ≡ length groups))
      × IsTable (map launch_of launches) (ok t.telemetries)

  together :
      (n : ℕ) (launches : List (Recorded F)) (groups : List (Group F))
      (rows : Result Telemetry.Fault (List (Telemetry.Row F)))
      → All HasTimes groups
      → IsTable (map launch_of launches) rows
      → AreTables n launches (ok groups) (with_tables (benchmark_rows stats natural n groups) rows)
  unfolding with_tables
  together n launches groups (raise e) h t =
      let (benchmarks, q, are, sum) = benchmark_rows-IsTable stats natural groups n h in
      subst (λ b. AreTables n launches (ok groups) (with_tables b (raise e))) (sym q)
        ((groups, refl), t)
  together n launches groups (ok rows) h t =
      let (benchmarks, q, are, sum) = benchmark_rows-IsTable stats natural groups n h in
      subst (λ b. AreTables n launches (ok groups) (with_tables b (ok rows))) (sym q)
        ((groups, refl, are, sum), t)

  module _ (is_time : F → Bool) (samples : List (Sample F)) (launches : List (Recorded F)) where
    from_checked :
        (env : Environment) (checked : Result Summary.Fault (List (Group F)))
        → IsAccepted is_time samples (map launch_row launches) env checked
        → AreTables
            (repetitions_of env)
            launches
            checked
            (tables_from stats natural (repetitions_of env) launches checked)
    unfolding tables_from
    from_checked env (raise e) h = refl
    from_checked env (ok groups) (expected, warmup, e, w, l, good, full) =
        together (repetitions_of env) launches groups (telemetry_rows (map launch_of launches))
          (full-HasTimes expected warmup groups l full.1)
          (telemetry_rows-IsTable (map launch_of launches))

    -- A study that its checks do not accept gives their error and no other. One that they accept never
    -- fails on a median: either a launch took no time and that is the error, or there are tables. The benchmark rows
    -- together count each group once, each counts the launches of its condition, binary and benchmark, and
    -- its median lies between its extremes; the telemetry rows together count each launch once, with
    -- the sums over the launches of their condition and binary.
    pub summarize_tables-AreTables :
        (env : Environment)
        → AreTables
            (repetitions_of env)
            launches
            (summarize is_time env samples (map launch_row launches))
            (summarize_tables stats natural is_time env samples launches)
    unfolding summarize_tables
    summarize_tables-AreTables env =
        from_checked env _ (summarize-IsAccepted is_time samples (map launch_row launches) env)
