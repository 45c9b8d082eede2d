-- ===== src/Recorder/Telemetry/Tests.antt =====
-- A machine of two cores with two CPUs each, one of them offline, and each theorem at it.
use matching_machine.Prelude.{ℕ, ◌≡◌, refl, Option, none, some, List, [], ◌∷◌}
use matching_machine.Recorder.Telemetry.{
  Field, digits, word, read_cpu_table, Counters, read_throttle,
}
use matching_machine.Recorder.Telemetry.Columns.{row_of, last_of, read_cpu_table-last_of}

-- CPU 1 has no column. The second line is short, and the third a text.
abbrev lines : List (ℕ × List Field)
lines =
    (7, digits 10 ∷ digits 20 ∷ digits 30 ∷ word 1 ∷ [])
    ∷ (8, digits 5 ∷ [])
    ∷ (9, word 3 ∷ digits 4 ∷ digits 6 ∷ [])
    ∷ []

abbrev cpus : List ℕ
cpus = 0 ∷ 3 ∷ []

abbrev columns : List ℕ
columns = 0 ∷ 2 ∷ 3 ∷ []

read_cpu_table-lines : read_cpu_table cpus columns lines ≡ (7, 40) ∷ (8, 5) ∷ (9, 6) ∷ []
unfolding read_cpu_table
read_cpu_table-lines = refl

abbrev counters : ℕ → ℕ → ℕ → Option Counters
counters core c p = some (record { core_id = core; core_count = c; package_count = p })

abbrev directories : List (Option Counters)
directories = counters 0 12 9 ∷ counters 1 30 9 ∷ counters 0 12 9 ∷ none ∷ []

read_throttle-directories : read_throttle directories ≡ (42, 9)
unfolding read_throttle
read_throttle-directories = refl

read_cpu_table-last_of_example :
    row_of (read_cpu_table cpus columns lines) 7 ≡ last_of cpus columns 7 lines none
read_cpu_table-last_of_example = read_cpu_table-last_of cpus columns lines 7
