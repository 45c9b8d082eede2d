-- ===== src/Recorder/Telemetry/Columns.antt =====
-- The columns that a row of a CPU table sums up.
use matching_machine.Prelude.{
  ℕ, suc, ◌+◌, ◌≡◌, refl, Option, none, some, List, [], ◌∷◌, arith, ◌==◌, if◌then◌else◌, contains,
  ap, ◌∙◌,
}
use matching_machine.Recorder.Telemetry.{
  Field, word, wanted, count_of, sum_at, put_row, read_rows, read_cpu_table,
}

-- The sum of the fields that stand below the wanted CPUs of the header, side by side.
abbrev pub sum_below : (cpus cols : List ℕ) → List Field → ℕ
sum_below cpus [] fields = 0
sum_below cpus (c ∷ cols) [] = 0
sum_below cpus (c ∷ cols) (f ∷ fields) =
    if contains cpus c
    then count_of (some f) + sum_below cpus cols fields
    else sum_below cpus cols fields

-- The last line with a label, and what it sums up to.
abbrev pub last_of : (cpus cols : List ℕ) → ℕ → List (ℕ × List Field) → Option ℕ → Option ℕ
last_of cpus cols label [] found = found
last_of cpus cols label ((l, fields) ∷ lines) found =
    last_of cpus cols label lines (if l == label then some (sum_below cpus cols fields) else found)

abbrev pub row_of : List (ℕ × ℕ) → ℕ → Option ℕ
row_of [] label = none
row_of ((l, n) ∷ table) label = if l == label then some n else row_of table label

sum_at-none : (cpus cols : List ℕ) (i : ℕ) (w : Field) → sum_at (w ∷ []) (wanted cpus i cols) ≡ 0
unfolding sum_at wanted
sum_at-none cpus [] i w = refl
sum_at-none cpus (c ∷ cols) i w = ground (arith, sum_at-none cpus cols (suc i) w)

sum_at-cons :
    (cpus cols : List ℕ) (i : ℕ) (w : Field) (fields : List Field)
    → sum_at (w ∷ fields) (wanted cpus (suc i) cols) ≡ sum_at fields (wanted cpus i cols)
unfolding sum_at wanted
sum_at-cons cpus [] i w fields = refl
sum_at-cons cpus (c ∷ cols) i w fields = ground (arith, sum_at-cons cpus cols (suc i) w fields)

sum_at-sum_below :
    (cpus cols : List ℕ) (w : Field) (fields : List Field)
    → sum_at (w ∷ fields) (wanted cpus 0 cols) ≡ sum_below cpus cols fields
unfolding sum_at wanted
sum_at-sum_below cpus [] w fields = refl
sum_at-sum_below cpus (c ∷ cols) w [] = sum_at-none cpus (c ∷ cols) 0 w
sum_at-sum_below cpus (c ∷ cols) w (f ∷ fields) =
    ground (arith, sum_at-cons cpus cols 0 w (f ∷ fields), sum_at-sum_below cpus cols f fields)

row_of-put_row :
    (table : List (ℕ × ℕ)) (l n label : ℕ)
    → row_of (put_row l n table) label ≡ (if l == label then some n else row_of table label)
unfolding put_row
row_of-put_row [] l n label = refl
row_of-put_row ((k, m) ∷ table) l n label = ground (arith, row_of-put_row table l n label)

read_rows-last_of :
    (cpus cols : List ℕ) (lines : List (ℕ × List Field)) (table : List (ℕ × ℕ)) (label : ℕ)
    → row_of (read_rows (wanted cpus 0 cols) lines table) label
      ≡ last_of cpus cols label lines (row_of table label)
unfolding read_rows
read_rows-last_of cpus cols [] table label = refl
read_rows-last_of cpus cols ((l, fields) ∷ lines) table label =
    let n = sum_at (word l ∷ fields) (wanted cpus 0 cols) in
    read_rows-last_of cpus cols lines (put_row l n table) label
    ∙ ap (last_of cpus cols label lines) (
        row_of-put_row table l n label
        ∙ ap (λ k. if l == label then some k else row_of table label)
            (sum_at-sum_below cpus cols (word l) fields))

-- The row of a label in the table is that of the last line with this label, and it is the sum of the
-- numbers that stand below the wanted CPUs of the header. A short line has no number below the last
-- CPUs, and a CPU that is offline has no column.
pub read_cpu_table-last_of :
    (cpus cols : List ℕ) (lines : List (ℕ × List Field)) (label : ℕ)
    → row_of (read_cpu_table cpus cols lines) label ≡ last_of cpus cols label lines none
unfolding read_cpu_table
read_cpu_table-last_of cpus cols lines label = read_rows-last_of cpus cols lines [] label
