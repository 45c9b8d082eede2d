-- ===== src/Recorder/Cpus.antt =====
-- `cpu_list` of scripts/record/bench_record.py, on the code points of its text. A part that is no number
-- is the `ValueError` of `int`, which takes digits alone here.
pub mod Printed
mod Tests
use matching_machine.Prelude.{
  ℕ, zero, suc, ◌+◌, ◌-◌, ◌*◌, Bool, true, false, ◌&&◌, Option, none, some, List, [], ◌∷◌, ◌++◌,
  ◌==◌, leb, if◌then◌else◌, length,
}

abbrev pub Text : Type 0
Text = List ℕ

-- `text.split(",")`: the first part, and the others.
unfoldable pub split_commas : Text → Text × List Text
split_commas [] = ([], [])
split_commas (c ∷ t) =
    let (part, parts) = split_commas t in if c == 44 then ([], part ∷ parts) else (c ∷ part, parts)

-- `part.partition("-")`, without the separator
unfoldable pub partition_dash : Text → Text × Text
partition_dash [] = ([], [])
partition_dash (c ∷ t) =
    let (lo, hi) = partition_dash t in if c == 45 then ([], t) else (c ∷ lo, hi)

-- The value of digits behind a number.
unfoldable pub int_from : ℕ → Text → Option ℕ
int_from n [] = some n
int_from n (c ∷ t) =
    let rest = int_from (10 * n + (c - 48)) t in if leb 48 c && leb c 57 then rest else none

unfoldable pub int : Text → Option ℕ
unfolding int_from
int [] = none
int (c ∷ t) = int_from 0 (c ∷ t)

-- `n` numbers from `lo` on
unfoldable pub cpus_from : (lo n : ℕ) → List ℕ
cpus_from lo zero = []
cpus_from lo (suc n) = lo ∷ cpus_from (suc lo) n

-- `range(int(lo), int(hi or lo) + 1)`
unfoldable pub cpus_between : Option ℕ → Option ℕ → Option (List ℕ)
unfolding cpus_from
cpus_between (some lo) (some hi) = some (cpus_from lo (hi + 1 - lo))
cpus_between _ _ = none

unfoldable pub cpus_of : Text → Option (List ℕ)
unfolding partition_dash int cpus_between
cpus_of part =
    let (lo, hi) = partition_dash part in
    cpus_between (int lo) (int (if length hi == 0 then lo else hi))

-- The loop over the parts; empty ones are left out.
unfoldable pub cpus_in : List Text → Option (List ℕ)
unfolding cpus_of
cpus_in [] = some []
cpus_in (part ∷ parts) =
    let rest = cpus_in parts in
    if length part == 0 then rest else elim (cpus_of part) [
      | none ↦ none
      | some cpus ↦ elim rest [ none ↦ none | some more ↦ some (cpus ++ more) ]
    ]

-- The set as a list, in the order of the text, which is stripped already.
unfoldable pub cpu_list : Text → Option (List ℕ)
unfolding split_commas cpus_in
cpu_list text = let (part, parts) = split_commas text in cpus_in (part ∷ parts)
