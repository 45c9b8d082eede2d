-- ===== src/Recorder/Samples/Kept.antt =====
-- Which samples the runs of a launch give.
use mathlib.Core.Option
use matching_machine.Effects.{Result, ok, raise}
use matching_machine.Prelude.{
  ℕ, ◌*◌, ◌≡◌, refl, Bool, true, false, Option, none, some, List, [], ◌∷◌, arith, any, select,
  if◌then◌else◌,
}
use matching_machine.Recorder.Samples.{
  TimeUnit, ns, us, ms, s, other_unit, Benchmark, Sample, Trouble, reported_errors, unknown_unit,
  factor, sample_of, collect, samples,
}

-- How many nanoseconds a unit has.
abbrev pub HasNanoseconds : TimeUnit → ℕ → Type 0
HasNanoseconds ns k = k ≡ 1
HasNanoseconds us k = k ≡ 1000
HasNanoseconds ms k = k ≡ 1000 * 1000
HasNanoseconds s k = k ≡ 1000 * 1000 * 1000
HasNanoseconds other_unit k = ⊥

module _ {F : Type 0} (scale : ℕ → F → F) where
  -- The sample of a run: its name, repetition and iterations, and its times in nanoseconds.
  abbrev pub IsSampleOf : Benchmark F → Sample F → Type 0
  IsSampleOf b t =
      (t.name ≡ b.run_name)
      × (t.repetition ≡ b.repetition_index)
      × (t.iterations ≡ b.iterations)
      × (k : ℕ) × HasNanoseconds b.time_unit k
      × (t.real ≡ scale k b.real_time)
      × (t.cpu ≡ scale k b.cpu_time)

  abbrev pub AreSamplesOf : List (Benchmark F) → List (Sample F) → Type 0
  AreSamplesOf [] [] = Unit
  AreSamplesOf (b ∷ bs) (t ∷ ts) = IsSampleOf b t × AreSamplesOf bs ts
  AreSamplesOf _ _ = ⊥

  abbrev pub is_iteration_run : Benchmark F → Bool
  is_iteration_run b = b.is_iteration

  abbrev pub has_error : Benchmark F → Bool
  has_error b = b.error_occurred

  abbrev pub is_other : TimeUnit → Bool
  is_other other_unit = true
  is_other _ = false

  -- The samples of the iterations, or the two errors.
  abbrev pub IsOutcome : List (Benchmark F) → Result Trouble (List (Sample F)) → Type 0
  IsOutcome bs (raise reported_errors) = any has_error bs ≡ true
  IsOutcome bs (raise unknown_unit) =
      (any has_error bs ≡ false)
      × (any (λ b. is_other b.time_unit) (select is_iteration_run bs) ≡ true)
  IsOutcome bs (ok ts) = (any has_error bs ≡ false) × AreSamplesOf (select is_iteration_run bs) ts

  -- The samples of runs, or a run whose unit is another.
  abbrev Collected : List (Benchmark F) → Option (List (Sample F)) → Type 0
  Collected runs none = any (λ b. is_other b.time_unit) runs ≡ true
  Collected runs (some ts) = AreSamplesOf runs ts

  abbrev Factor : TimeUnit → Option ℕ → Type 0
  Factor u none = is_other u ≡ true
  Factor u (some k) = HasNanoseconds u k

  factor-Factor : (u : TimeUnit) → Factor u (factor u)
  unfolding factor
  factor-Factor ns = refl
  factor-Factor us = refl
  factor-Factor ms = refl
  factor-Factor s = refl
  factor-Factor other_unit = refl

  Collected-cons :
      (b : Benchmark F) (k : Option ℕ) (runs : List (Benchmark F)) (rest : Option (List (Sample F)))
      → Factor b.time_unit k
      → Collected runs rest
      → Collected
          (b ∷ runs)
          (elim k [ none ↦ none | some n ↦ Option.map (λ ts. sample_of scale b n ∷ ts) rest ])
  Collected-cons b none runs rest f h = rw f refl
  Collected-cons b (some n) runs none f h = ground (arith, h)
  Collected-cons b (some n) runs (some ts) f h = ((refl, refl, refl, n, f, refl, refl), h)

  collect-Collected :
      (bs : List (Benchmark F)) → Collected (select is_iteration_run bs) (collect scale bs)
  unfolding collect
  collect-Collected [] = tt
  collect-Collected (b ∷ bs) =
      let rest = collect-Collected bs in
      let runs = select is_iteration_run bs in
      let step =
        Collected-cons b (factor b.time_unit) runs (collect scale bs) (factor-Factor b.time_unit)
          rest in
      go b.is_iteration runs (collect scale bs) _ rest step
    where
      go :
          (i : Bool) (runs : List (Benchmark F)) (rest more : Option (List (Sample F)))
          → Collected runs rest
          → Collected (b ∷ runs) more
          → Collected (if i then b ∷ runs else runs) (if i then more else rest)
      go true runs rest more h k = k
      go false runs rest more h k = h

  Collected-IsOutcome :
      (bs : List (Benchmark F)) (r : Option (List (Sample F))) (failed : Bool)
      → any has_error bs ≡ failed
      → Collected (select is_iteration_run bs) r
      → IsOutcome bs (
          if failed
          then raise reported_errors
          else elim r [ none ↦ raise unknown_unit | some ts ↦ ok ts ])
  Collected-IsOutcome bs r true e c = e
  Collected-IsOutcome bs none false e c = (e, c)
  Collected-IsOutcome bs (some ts) false e c = (e, c)

  -- The outcome of `samples`, for all runs of a launch. A reported error is raised only if a run has
  -- one, and one on a unit only if none has and an iteration's unit is none of the four. Otherwise
  -- there is one sample for each iteration, in order and aggregates left out, with its name, its
  -- repetition, its number of iterations, and its real and its CPU time in nanoseconds.
  pub samples-IsOutcome : (bs : List (Benchmark F)) → IsOutcome bs (samples scale bs)
  unfolding samples
  samples-IsOutcome bs =
      Collected-IsOutcome bs (collect scale bs) (any has_error bs) refl (collect-Collected bs)
