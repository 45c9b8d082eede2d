-- ===== src/Diagnose/Repetitions/Tests.antt =====
-- The samples of two benchmarks with two repetitions each, and the theorem on them.
use matching_machine.Effects.{ok}
use matching_machine.Prelude.{ℕ, ◌*◌, ◌≡◌, refl, true, false, List, [], ◌∷◌, ltb}
use matching_machine.Recorder.Samples.Kept.{IsOutcome, samples-IsOutcome}
use matching_machine.Recorder.Samples.{TimeUnit, ns, us, Benchmark, Sample, samples}
use matching_machine.Diagnose.Repetitions.{are_requested}
use matching_machine.Diagnose.Repetitions.Full.{has_sample, are_requested-has_sample}

abbrev benchmark : ℕ → ℕ → TimeUnit → Benchmark ℕ
benchmark name repetition unit = record {
  error_occurred = false;
  run_name = name;
  repetition_index = repetition;
  real_time = 30;
  cpu_time = 20;
  time_unit = unit;
  iterations = 9;
  is_iteration = true;
}

abbrev sample : ℕ → ℕ → ℕ → ℕ → Sample ℕ
sample name repetition real cpu = record {
  name = name;
  repetition = repetition;
  real = real;
  cpu = cpu;
  iterations = 9;
}

abbrev sampled : List (Sample ℕ)
sampled = sample 1 0 30 20 ∷ sample 2 0 30000 20000 ∷ sample 1 1 30 20 ∷ sample 2 1 30 20 ∷ []

abbrev benchmarks : List (Benchmark ℕ)
benchmarks = benchmark 1 0 ns ∷ benchmark 2 0 us ∷ benchmark 1 1 ns ∷ benchmark 2 1 ns ∷ []

samples-four : samples ◌*◌ benchmarks ≡ ok sampled
unfolding samples
samples-four = refl

are_requested-two : are_requested 2 sampled ≡ true
unfolding are_requested
are_requested-two = refl

are_requested-three : are_requested 3 sampled ≡ false
unfolding are_requested
are_requested-three = refl

are_requested-has_sample_example : has_sample sampled 2 1 ≡ ltb 1 2
are_requested-has_sample_example = are_requested-has_sample 2 sampled 2 1 are_requested-two refl

samples-IsOutcome_example : IsOutcome ◌*◌ benchmarks (samples ◌*◌ benchmarks)
samples-IsOutcome_example = samples-IsOutcome ◌*◌ benchmarks
