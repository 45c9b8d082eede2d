-- ===== src/Recorder/Telemetry.antt =====
-- `read_cpu_table` and `read_throttle` of scripts/record/bench_record.py, from the fields of the files
-- that they read. A field is a number or another text, and numbers stand for labels and core ids.
pub mod Columns
pub mod Throttle
pub mod Record
pub mod Snapshot
mod Tests
use matching_machine.Prelude.{
  ℕ, zero, suc, ◌+◌, ◌-◌, Bool, true, false, ◌&&◌, Option, none, some, List, [], ◌∷◌, ◌++◌, ◌==◌,
  if◌then◌else◌, length, get_elem?, contains,
}

-- A field of a line, split at white space: digits alone, or any other text.
pub data Field : Type 0 where
  digits : ℕ → Field
  word : ℕ → Field

-- `want`: the positions, counted from `i + 1`, of the header's CPUs that are in `cpus`.
unfoldable pub wanted : List ℕ → (i : ℕ) → (cols : List ℕ) → List ℕ
wanted cpus i [] = []
wanted cpus i (c ∷ cols) =
    if contains cpus c then suc i ∷ wanted cpus (suc i) cols else wanted cpus (suc i) cols

-- `int(f[i])` if the line reaches that far and the field is a number, else nothing.
abbrev pub count_of : Option Field → ℕ
count_of (some (digits n)) = n
count_of (some (word w)) = 0
count_of none = 0

unfoldable pub sum_at : List Field → List ℕ → ℕ
sum_at f [] = 0
sum_at f (i ∷ want) = count_of (get_elem? f i) + sum_at f want

-- `table[label] = …`
unfoldable pub put_row : ℕ → ℕ → List (ℕ × ℕ) → List (ℕ × ℕ)
put_row label n [] = (label, n) ∷ []
put_row label n ((l, m) ∷ table) =
    if l == label then (l, n) ∷ table else (l, m) ∷ put_row label n table

-- The lines behind the header, each with its label `f[0]` and the fields behind it.
unfoldable pub read_rows : List ℕ → List (ℕ × List Field) → List (ℕ × ℕ) → List (ℕ × ℕ)
unfolding sum_at put_row
read_rows want [] table = table
read_rows want ((label, fields) ∷ lines) table =
    read_rows want lines (put_row label (sum_at (word label ∷ fields) want) table)

unfoldable pub read_cpu_table : (cpus cols : List ℕ) → List (ℕ × List Field) → List (ℕ × ℕ)
unfolding wanted read_rows
read_cpu_table cpus cols lines = read_rows (wanted cpus 0 cols) lines []

-- The counters of a CPU's directory: its core, the core's throttle events and the package's.
pub record Counters : Type 0 where
  pub core_id : ℕ
  pub core_count : ℕ
  pub package_count : ℕ

-- `core`, `seen` and `package`.
pub record Throttles : Type 0 where
  pub core : ℕ
  pub seen : List ℕ
  pub package_total : Option ℕ

abbrev pub or_first : Option ℕ → ℕ → Option ℕ
or_first none p = some p
or_first (some q) p = some q

-- One directory; `none` is one that cannot be read.
unfoldable pub add_counters : Option Counters → Throttles → Throttles
add_counters none t = t
add_counters (some c) t = record {
  core = if contains t.seen c.core_id then t.core else t.core + c.core_count;
  seen = if contains t.seen c.core_id then t.seen else c.core_id ∷ t.seen;
  package_total = or_first t.package_total c.package_count;
}

unfoldable pub read_counters : List (Option Counters) → Throttles → Throttles
unfolding add_counters
read_counters [] t = t
read_counters (d ∷ dirs) t = read_counters dirs (add_counters d t)

-- `package or 0`
abbrev pub or_zero : Option ℕ → ℕ
or_zero none = 0
or_zero (some n) = n

abbrev pub nothing_read : Throttles
nothing_read = record { core = 0; seen = []; package_total = none }

unfoldable pub read_throttle : List (Option Counters) → ℕ × ℕ
unfolding read_counters
read_throttle dirs = let t = read_counters dirs nothing_read in (t.core, or_zero t.package_total)
