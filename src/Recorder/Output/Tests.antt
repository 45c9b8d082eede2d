-- ===== src/Recorder/Output/Tests.antt =====
-- The output of a launch of two benchmarks, and the theorem on them.
use matching_machine.Prelude.{ℕ, ◌≡◌, refl, Option, none, some, List, [], ◌∷◌, map}
use matching_machine.Prelude.Int.{pos, ◌-ℤ◌}
use matching_machine.Recorder.Launch.{Mark}
use matching_machine.Recorder.Output.Numbers.{
  numbers_of, up_from, printed, latency_reports-numbers_of,
}
use matching_machine.Recorder.Output.{latency_reports, Row, split_lines, intervals}
use matching_machine.Recorder.Output.Ends.{last_end}
use matching_machine.Recorder.Output.Spans.{Spans, names_in, intervals-Spans}

-- The byte behind `BM_`.
abbrev name_of : List ℕ → ℕ
name_of (_ ∷ _ ∷ _ ∷ c ∷ _) = c
name_of _ = 0

-- A header, two lines of benchmark 1 and one of benchmark 2.
abbrev output : List ℕ
output = 9 ∷ 10 ∷ 66 ∷ 77 ∷ 95 ∷ 1 ∷ 10 ∷ 66 ∷ 77 ∷ 95 ∷ 1 ∷ 10 ∷ 66 ∷ 77 ∷ 95 ∷ 2 ∷ 10 ∷ []

abbrev start : Mark
start = record { offset = 0; time = 100; cpu = 0; waited = 5 }

abbrev marks : List Mark
marks =
    record { offset = 2; time = 110; cpu = 1; waited = 5 }
    ∷ record { offset = 12; time = 150; cpu = 30; waited = 6 }
    ∷ record { offset = 17; time = 190; cpu = 60; waited = 9 }
    ∷ []

intervals-output :
    intervals name_of output start marks
    ≡ some (
        record { name = 1; wall = pos 50; cpu = pos 30; waited = pos 1 }
        ∷ record { name = 2; wall = pos 40; cpu = pos 30; waited = pos 3 }
        ∷ [])
unfolding intervals ◌-ℤ◌
intervals-output = refl

intervals-Spans_example :
    let (line, lines) = split_lines output in
    (rows : List Row) × (intervals name_of output start marks ≡ some rows)
    × Spans start marks (last_end name_of 0 (line ∷ lines)) start rows
    × (map (λ r. r.name) rows ≡ names_in name_of (line ∷ lines) [])
intervals-Spans_example = intervals-Spans name_of output start marks

-- Two reports of quantity 4, and a block without labels between two reports of no quantity.
abbrev blocks : List (Option ℕ × List (ℕ × ℕ))
blocks =
    (some 4, (1, 2) ∷ [])
    ∷ (none, (1, 3) ∷ [])
    ∷ (some 4, (1, 9) ∷ [])
    ∷ (none, [])
    ∷ (none, (1, 5) ∷ [])
    ∷ []

latency_reports-numbers_of_example :
    numbers_of 4 (latency_reports 7 blocks) ≡ up_from 0 (printed 7 4 blocks)
latency_reports-numbers_of_example = latency_reports-numbers_of 7 blocks 4
