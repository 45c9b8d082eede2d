-- ===== src/Recorder/Telemetry/Record.antt =====
-- The telemetry of a launch in scripts/record/bench_record.py: `read_schedstat`, `package_temp`,
-- `core_mhz`, `snapshot`, and the record that `launch` makes of two snapshots.
pub mod Rise
mod Tests
use matching_machine.Prelude.{
  ℕ, ◌+◌, ◌*◌, Bool, true, false, Option, none, some, List, [], ◌∷◌, ◌++◌, ◌==◌, map, select,
  length, if◌then◌else◌,
}
use matching_machine.Prelude.Int.{ℤ, pos, sub_ℕ, ◌+ℤ◌}
use matching_machine.Report.Extremes.{min_from, max_of}
use matching_machine.Report.Floats.{Order, Arith, le}

-- Integers as floats, and `round(x, digits)`.
pub record Rounding (F : Type 0) : Type 0 where
  pub of_ℤ : ℤ → F
  pub round : F → ℕ → F

-- A line of /proc/schedstat: the CPU, the time that tasks ran on it and the time that they waited. Lines
-- that are not about a CPU are `none`.
pub record CpuTimes : Type 0 where
  pub cpu : ℕ
  pub ran : ℕ
  pub waited : ℕ

-- `out[cpu] = …`
unfoldable pub put_times : CpuTimes → List CpuTimes → List CpuTimes
put_times t [] = t ∷ []
put_times t (u ∷ out) = let rest = put_times t out in if u.cpu == t.cpu then t ∷ out else u ∷ rest

unfoldable pub read_schedstat : List (Option CpuTimes) → List CpuTimes → List CpuTimes
unfolding put_times
read_schedstat [] out = out
read_schedstat (none ∷ lines) out = read_schedstat lines out
read_schedstat (some t ∷ lines) out = read_schedstat lines (put_times t out)

-- `sched[cpu]`; `none` is a `KeyError`.
unfoldable pub times_of : List CpuTimes → ℕ → Option CpuTimes
times_of [] cpu = none
times_of (t ∷ out) cpu = if t.cpu == cpu then some t else times_of out cpu

-- A zone: whether its type is the package's, and its temperature; `none` cannot be read.
pub record Zone : Type 0 where
  pub is_package : Option Bool
  pub temperature : Option ℕ

-- `table.get(label, 0)`
unfoldable pub count_in : List (ℕ × ℕ) → ℕ → ℕ
count_in [] label = 0
count_in ((l, n) ∷ table) label = if l == label then n else count_in table label

-- The difference of each line of the second table.
unfoldable pub rises : (after before : List (ℕ × ℕ)) → List (ℕ × ℤ)
unfolding count_in
rises [] before = []
rises ((l, n) ∷ after) before = (l, sub_ℕ n (count_in before l)) ∷ rises after before

unfoldable pub rise_of : List (ℕ × ℤ) → ℕ → ℤ
rise_of [] label = pos 0
rise_of ((l, n) ∷ table) label = if l == label then n else rise_of table label

unfoldable pub sum_ℤ : List ℤ → ℤ
sum_ℤ [] = pos 0
sum_ℤ (n ∷ ns) = n +ℤ sum_ℤ ns

-- `sum(v for k, v in irq.items() if k.isdigit())`
unfoldable pub sum_devices : (ℕ → Bool) → List (ℕ × ℤ) → ℤ
unfolding sum_ℤ
sum_devices is_digit table = sum_ℤ (map (λ (l : ℕ × ℤ). l.1) (select (λ l. is_digit l.0) table))

module _ {F : Type 0} ⦃o : Order F⦄ ⦃a : Arith F⦄ where
  -- The first package zone that can be read; `none` is `nan`.
  unfoldable pub package_temp : List Zone → Option F
  package_temp [] = none
  package_temp (z ∷ zones) =
      let rest = package_temp zones in
      elim z.is_package [
        | none ↦ rest
        | some is ↦
            if is
            then elim z.temperature [ none ↦ rest | some t ↦ some (a.div (a.of_ℕ t) (a.of_ℕ 1000)) ]
            else rest
      ]

  -- The frequencies of the busy cores, from what is read of each in kHz.
  unfoldable pub core_mhz : List (Option ℕ) → List F
  core_mhz [] = []
  core_mhz (none ∷ cpus) = core_mhz cpus
  core_mhz (some khz ∷ cpus) =
      let mhz = a.div (a.of_ℕ khz) (a.of_ℕ 1000) in
      if le (a.of_ℕ 1000) mhz then mhz ∷ core_mhz cpus else core_mhz cpus
