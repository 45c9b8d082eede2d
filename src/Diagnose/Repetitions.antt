-- ===== src/Diagnose/Repetitions.antt =====
-- The check of `DiagnosticStudy.one` in scripts/record/bench_diagnose.py that a launch gave each of its
-- benchmarks the repetitions that were asked for.
pub mod Full
mod Tests
use matching_machine.Prelude.{
  ℕ, zero, suc, Bool, true, false, ◌&&◌, not, List, [], ◌∷◌, ◌==◌, all, set_eq, if◌then◌else◌,
  length,
}
use matching_machine.Recorder.Samples.{Sample}

-- `counts`: the repetitions of each benchmark.
abbrev pub Counts : Type 0
Counts = List (ℕ × List ℕ)

-- `counts.setdefault(name, set()).add(repetition)`
unfoldable pub add_count : (name repetition : ℕ) → Counts → Counts
add_count name repetition [] = (name, repetition ∷ []) ∷ []
add_count name repetition ((n, reps) ∷ counts) =
    if n == name
    then (n, repetition ∷ reps) ∷ counts
    else (n, reps) ∷ add_count name repetition counts

-- `range(n)`, from a number on
unfoldable pub range_of : (first n : ℕ) → List ℕ
range_of first zero = []
range_of first (suc n) = first ∷ range_of (suc first) n

module _ {F : Type 0} where
  -- The loop over the samples.
  unfoldable pub count_samples : List (Sample F) → Counts → Counts
  unfolding add_count
  count_samples [] counts = counts
  count_samples (s ∷ ss) counts = count_samples ss (add_count s.name s.repetition counts)

  -- Whether the launch did produce the requested repetitions.
  unfoldable pub are_requested : (repetitions : ℕ) → List (Sample F) → Bool
  unfolding count_samples range_of
  are_requested repetitions ss =
      not (length ss == 0) && all (λ c. set_eq c.1 (range_of 0 repetitions)) (count_samples ss [])
