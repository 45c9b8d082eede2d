-- ===== src/Recorder/Schedule.antt =====
-- The order of the launches: `session` of scripts/record/bench_record.py rotates the binaries from
-- round to round and alternates the conditions, and `DiagnosticStudy.session` of
-- scripts/record/bench_diagnose.py rotates its matrix from block to block.
pub mod Balance
mod Tests
use matching_machine.Prelude.{
  ℕ, ◌+◌, ◌-◌, ◌*◌, ◌%◌, Option, none, some, List, [], ◌∷◌, ◌++◌, length, take, drop, get_elem?,
}

pub data Binary : Type 0 where
  bench_order_book bench_spsc_ring_buffer bench_matching_engine bench_baseline_mutex : Binary

pub data Kind : Type 0 where
  solo pair : Kind

abbrev pub binaries : List (Binary × Kind)
binaries =
    (bench_order_book, solo)
    ∷ (bench_spsc_ring_buffer, pair)
    ∷ (bench_matching_engine, pair)
    ∷ (bench_baseline_mutex, pair)
    ∷ []

-- `xs[k:] + xs[:k]` with `k = index % len(xs)`
unfoldable pub rotation : {A : Type 0} → List A → ℕ → List A
rotation xs index = drop (index % length xs) xs ++ take (index % length xs) xs

-- The order of the binaries in the round that `self.round_index` counts.
unfoldable pub round_order : ℕ → List (Binary × Kind)
unfolding rotation
round_order round_index = rotation binaries round_index

-- `conditions[(r - 1 + s - 1) % len(conditions)]`
unfoldable pub round_condition : {A : Type 0} → List A → (s r : ℕ) → Option A
round_condition conditions s r = get_elem? conditions ((r - 1 + (s - 1)) % length conditions)

-- `((number - 1) * blocks + block - 1)`, the index of a block in the whole study
unfoldable pub block_index : (blocks number block : ℕ) → ℕ
block_index blocks number block = (number - 1) * blocks + block - 1

unfoldable pub block_order : {A : Type 0} → List A → (blocks number block : ℕ) → List A
unfolding rotation block_index
block_order matrix blocks number block = rotation matrix (block_index blocks number block)
