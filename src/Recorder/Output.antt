-- ===== src/Recorder/Output.antt =====
-- What scripts/record/bench_record.py reads from a launch's output: `intervals` and
-- `latency_reports`. The names of benchmarks and quantities are compared and nothing else, so numbers
-- stand for them.
pub mod Ends
pub mod Spans
pub mod Numbers
mod Tests
use matching_machine.Prelude.{
  ℕ, suc, ◌+◌, ◌-◌, Bool, true, false, ◌&&◌, Option, none, some, List, [], ◌∷◌, ◌++◌, ◌==◌, leb,
  min, if◌then◌else◌, length, contains,
}
use mathlib.Core.Option
use matching_machine.Prelude.Int.{ℤ, pos, ◌-ℤ◌}
use matching_machine.Recorder.Launch.{Mark}

-- `b"\n".split`: the first line, and the others.
unfoldable pub split_lines : List ℕ → List ℕ × List (List ℕ)
split_lines [] = ([], [])
split_lines (c ∷ out) =
    let (line, lines) = split_lines out in if c == 10 then ([], line ∷ lines) else (c ∷ line, lines)

-- `line.startswith(b"BM_")`
unfoldable pub is_benchmark : List ℕ → Bool
is_benchmark (b ∷ m ∷ u ∷ _) = b == 66 && m == 77 && u == 95
is_benchmark _ = false

-- The dictionary of last offsets.
unfoldable pub put : ℕ → ℕ → List (ℕ × ℕ) → List (ℕ × ℕ)
put name v [] = (name, v) ∷ []
put name v ((n, w) ∷ d) = if n == name then (n, v) ∷ d else (n, w) ∷ put name v d

unfoldable pub find : List (ℕ × ℕ) → ℕ → Option ℕ
find [] name = none
find ((n, w) ∷ d) name = if n == name then some w else find d name

-- `last`, `order` and `offset`.
pub record Scan : Type 0 where
  pub last : List (ℕ × ℕ)
  pub order : List ℕ
  pub offset : ℕ

unfoldable pub note_name : ℕ → ℕ → Scan → Scan
unfolding put
note_name name offset s = record {
  last = put name offset s.last;
  order = if contains s.order name then s.order else s.order ++ name ∷ [];
  offset = offset;
}

-- A line whose end lies at an offset, noted if it is a benchmark's.
unfoldable pub scan_line : Bool → ℕ → ℕ → Scan → Scan
unfolding note_name
scan_line true name offset s = note_name name offset s
scan_line false name offset s = record s { offset = offset }

-- The first loop of `intervals`. `name_of` is the name that a line gives, the suffix of an aggregate
-- taken off.
unfoldable pub scan_lines : (List ℕ → ℕ) → List (List ℕ) → Scan → Scan
unfolding is_benchmark scan_line
scan_lines name_of [] s = s
scan_lines name_of (line ∷ lines) s =
    scan_lines name_of lines
      (scan_line (is_benchmark line) (name_of line) (s.offset + length line + 1) s)

-- `next((m for m in marks if m[0] >= bound), default)`
unfoldable pub first_from : ℕ → List Mark → Mark → Mark
first_from bound [] default = default
first_from bound (m ∷ marks) default =
    if leb bound m.offset then m else first_from bound marks default

-- `marks[-1]`
unfoldable pub final : Mark → List Mark → Mark
final m [] = m
final m (n ∷ marks) = final n marks

-- A row, in nanoseconds.
pub record Row : Type 0 where
  pub name : ℕ
  pub wall : ℤ
  pub cpu : ℤ
  pub waited : ℤ

-- The mark at which a benchmark's lines were out.
unfoldable pub mark_at : Mark → List Mark → ℕ → Mark
unfolding first_from final
mark_at m marks offset = let e = final m marks in first_from (min offset e.offset) (m ∷ marks) e

abbrev pub row : ℕ → Mark → Mark → Row
row name mark prev = record {
  name = name;
  wall = pos mark.time -ℤ pos prev.time;
  cpu = pos mark.cpu -ℤ pos prev.cpu;
  waited = pos mark.waited -ℤ pos prev.waited;
}

-- The second loop; `none` is a `KeyError`.
unfoldable pub rows_of : Mark → List Mark → List (ℕ × ℕ) → List ℕ → Mark → Option (List Row)
unfolding find mark_at
rows_of m marks last [] prev = some []
rows_of m marks last (name ∷ order) prev = elim (find last name) [
  | none ↦ none
  | some offset ↦
      let mark = mark_at m marks offset in
      Option.map (λ rows. row name mark prev ∷ rows) (rows_of m marks last order mark)
]

abbrev pub nothing_seen : Scan
nothing_seen = record { last = []; order = []; offset = 0 }

-- The first of the marks is given apart: `launch` gives at least one.
unfoldable pub intervals : (List ℕ → ℕ) → List ℕ → Mark → List Mark → Option (List Row)
unfolding split_lines scan_lines rows_of
intervals name_of out m marks =
    let (line, lines) = split_lines out in
    let s = scan_lines name_of (line ∷ lines) nothing_seen in rows_of m marks s.last s.order m

-- The latency reports.

pub record LatencyReport : Type 0 where
  pub quantity : ℕ
  pub repetition : ℕ
  pub ticks : List (ℕ × ℕ)

-- `seen[quantity]` of the counter
unfoldable pub seen_of : List (ℕ × ℕ) → ℕ → ℕ
unfolding find
seen_of seen q = elim (find seen q) [ none ↦ 0 | some n ↦ n ]

-- `quantity or "end-to-end"`
abbrev pub or_quantity : ℕ → Option ℕ → ℕ
or_quantity end_to_end none = end_to_end
or_quantity end_to_end (some q) = q

-- The loop of `latency_reports` over the blocks that the header splits off, each with its quantity,
-- if the header has one, and with the labels and ticks found in it.
unfoldable pub latency_reports_from :
    ℕ → List (Option ℕ × List (ℕ × ℕ)) → List (ℕ × ℕ) → List LatencyReport
unfolding seen_of put
latency_reports_from end_to_end [] seen = []
latency_reports_from end_to_end ((quantity, found) ∷ blocks) seen =
    let q = or_quantity end_to_end quantity in
    let n = seen_of seen q in
    let rest = latency_reports_from end_to_end blocks (put q (n + 1) seen) in
    let skipped = latency_reports_from end_to_end blocks seen in
    if length found == 0
    then skipped
    else record { quantity = q; repetition = n; ticks = found } ∷ rest

unfoldable pub latency_reports : ℕ → List (Option ℕ × List (ℕ × ℕ)) → List LatencyReport
unfolding latency_reports_from
latency_reports end_to_end blocks = latency_reports_from end_to_end blocks []
