-- ===== src/Report/Ranks.antt =====
-- `ranks` of scripts/report/bench_report.py. Ranks are halves of whole numbers, so the model keeps
-- them doubled: `(i + j) / 2 + 1` is the number `i + j + 2` here.
pub mod Writes
pub mod Runs
pub mod Counts
pub mod Laws
use matching_machine.Prelude.{
  ℕ, zero, suc, ◌+◌, Bool, true, false, List, [], ◌∷◌, ◌++◌, arith, if◌then◌else◌, length, set,
  replicate,
}
use matching_machine.Report.Floats.{Order, eqv}
use matching_machine.Report.Sort.{sorted}

-- An index into `values`, with the value that the sort key reads there.
abbrev pub Entries : Type 0 → Type 0
Entries F = List (ℕ × F)

module _ {F : Type 0} where
  abbrev pub enumerate : ℕ → List F → Entries F
  enumerate i [] = []
  enumerate i (v ∷ vs) = (i, v) ∷ enumerate (suc i) vs

  -- `for k in range(i, j + 1): out[order[k]] = …`
  unfoldable pub write_all : Entries F → ℕ → List ℕ → List ℕ
  write_all [] r out = out
  write_all ((k, v) ∷ run) r out = write_all run r (set out k r)

module _ {F : Type 0} ⦃o : Order F⦄ where
  -- The inner `while`: what of `order[i + 1:]` has the value of `order[i]`, and what is behind it.
  unfoldable pub run_of : F → Entries F → Entries F
  run_of v [] = []
  run_of v (e ∷ rest) = if eqv e.1 v then e ∷ run_of v rest else []

  unfoldable pub after_run : F → Entries F → Entries F
  after_run v [] = []
  after_run v (e ∷ rest) = if eqv e.1 v then after_run v rest else e ∷ rest

  -- The outer `while`, where `rest` is `order[i:]`. Each round takes at least one entry.
  unfoldable pub rank_runs : ℕ → ℕ → Entries F → List ℕ → List ℕ
  unfolding run_of after_run write_all
  rank_runs zero i rest out = out
  rank_runs (suc fuel) i [] out = out
  rank_runs (suc fuel) i (e ∷ rest) out =
      let j = i + length (run_of e.1 rest) in
      rank_runs fuel (j + 1) (after_run e.1 rest) (write_all (e ∷ run_of e.1 rest) (i + j + 2) out)

  unfoldable pub ranks : List F → List ℕ
  unfolding rank_runs sorted
  ranks values =
      rank_runs (length values) 0 (sorted (λ e. e.1) (enumerate 0 values))
        (replicate (length values) 0)
