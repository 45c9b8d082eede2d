-- ===== src/Recorder/Samples.antt =====
-- `samples` and `warmup` of scripts/record/bench_record.py, from the parsed JSON of Google Benchmark.
-- `F` are its times.
pub mod Kept
use mathlib.Core.Option
use matching_machine.Effects.{Result, ok, raise}
use matching_machine.Prelude.{
  ℕ, Bool, true, false, Option, none, some, List, [], ◌∷◌, any, ltb, if◌then◌else◌,
}

pub data TimeUnit : Type 0 where
  ns us ms s other_unit : TimeUnit

-- An element of `data["benchmarks"]`.
pub record Benchmark (F : Type 0) : Type 0 where
  pub error_occurred : Bool
  pub run_name : ℕ
  pub repetition_index : ℕ
  pub real_time : F
  pub cpu_time : F
  pub time_unit : TimeUnit
  pub iterations : ℕ
  -- `b["run_type"] == "iteration"`
  pub is_iteration : Bool

-- A repetition, with its times in nanoseconds.
pub record Sample (F : Type 0) : Type 0 where
  pub name : ℕ
  pub repetition : ℕ
  pub real : F
  pub cpu : F
  pub iterations : ℕ

-- The `ValueError` on reported errors, and the `KeyError` on a unit.
pub data Trouble : Type 0 where
  reported_errors unknown_unit : Trouble

-- `ns[unit]`
unfoldable pub factor : TimeUnit → Option ℕ
factor ns = some 1
factor us = some 1000
factor ms = some 1000000
factor s = some 1000000000
factor other_unit = none

-- `WARMUP_REPETITIONS`
abbrev pub warmup_repetitions : ℕ
warmup_repetitions = 1

unfoldable pub warmup : ℕ → ℕ
warmup repetition = if ltb repetition warmup_repetitions then 1 else 0

-- `scale k t` is the product of a time and a factor.
module _ {F : Type 0} (scale : ℕ → F → F) where
  abbrev pub sample_of : Benchmark F → ℕ → Sample F
  sample_of b k = record {
    name = b.run_name;
    repetition = b.repetition_index;
    real = scale k b.real_time;
    cpu = scale k b.cpu_time;
    iterations = b.iterations;
  }

  unfoldable pub collect : List (Benchmark F) → Option (List (Sample F))
  unfolding factor
  collect [] = some []
  collect (b ∷ bs) =
      let rest = collect bs in
      if b.is_iteration
      then elim (factor b.time_unit) [
        | none ↦ none
        | some k ↦ Option.map (λ ss. sample_of b k ∷ ss) rest
      ]
      else rest

  unfoldable pub samples : List (Benchmark F) → Result Trouble (List (Sample F))
  unfolding collect
  samples bs =
      if any (λ b. b.error_occurred) bs
      then raise reported_errors
      else elim (collect bs) [ none ↦ raise unknown_unit | some ss ↦ ok ss ]
