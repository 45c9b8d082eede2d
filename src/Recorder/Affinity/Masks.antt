-- ===== src/Recorder/Affinity/Masks.antt =====
-- The mask that a task is given: online, outside of the excluded CPUs, and not empty.
use matching_machine.Prelude.{
  ℕ, ◌≡◌, ◌≢◌, ◌⊎◌, inl, inr, true, false, ◌&&◌, not, List, [], ◌∷◌, arith, contains, inter, diff,
  contains-select, List-cases,
}
use matching_machine.Recorder.Affinity.{Kernel, Machine, Baseline, baseline_mask, want_mask}

contains-diff :
    (xs ys : List ℕ) (x : ℕ) → contains (diff xs ys) x ≡ (contains xs x && not (contains ys x))
contains-diff xs ys x = contains-select (λ y. not (contains ys y)) xs x

contains-inter :
    (xs ys : List ℕ) (x : ℕ) → contains (inter xs ys) x ≡ (contains xs x && contains ys x)
contains-inter xs ys x = contains-select (contains ys) xs x

-- An element of a set keeps the set from being empty.
ne_nil_of_contains : (xs : List ℕ) (x : ℕ) → contains xs x ≡ true → xs ≢ []
ne_nil_of_contains [] x h = λ _. cc
ne_nil_of_contains (y ∷ ys) x h = λ e. cc

module _ {K : Type 0} (kernel : Kernel K) (machine : Machine) (baseline : Baseline)
    (exclude : List ℕ) (pid tid : ℕ) where
  abbrev pub want : List ℕ
  want = want_mask kernel machine baseline exclude pid tid

  abbrev wanted : List ℕ
  wanted =
      diff (inter (baseline_mask kernel machine baseline exclude pid tid) machine.online) exclude

  -- `a or b` is one of the two.
  want_cases : (want ≡ wanted) ⊎ (want ≡ diff machine.online exclude)
  unfolding want_mask
  want_cases = elim (List-cases wanted) [ inl e ↦ inr (rw e) | inr (x, xs, e) ↦ inl (rw e) ]

  pub want_mask-within :
      (cpu : ℕ)
      → contains want cpu ≡ true
      → (contains machine.online cpu ≡ true) × (contains exclude cpu ≡ false)
  want_mask-within cpu h = elim want_cases [
    | inl e ↦ ground (
      arith,
      contains-diff (inter (baseline_mask kernel machine baseline exclude pid tid) machine.online)
          exclude cpu,
      contains-inter (baseline_mask kernel machine baseline exclude pid tid) machine.online cpu,
    )
    | inr e ↦ ground (arith, contains-diff machine.online exclude cpu)
  ]

  pub want_mask-ne_nil :
      (cpu : ℕ) → contains machine.online cpu ≡ true → contains exclude cpu ≡ false → want ≢ []
  unfolding want_mask
  want_mask-ne_nil cpu on out = elim (List-cases wanted) [
    | inl e ↦
        rw e (ne_nil_of_contains (diff machine.online exclude) cpu (rw (contains-diff, on, out)))
    | inr (x, xs, e) ↦ rw e (ground arith)
  ]

  -- A wanted mask holds only CPUs that are online and not excluded; it is empty only if no such CPU
  -- is left.
  want_mask-bounds :
      ((cpu : ℕ)
        → contains want cpu ≡ true
        → (contains machine.online cpu ≡ true) × (contains exclude cpu ≡ false))
      × ((cpu : ℕ) → contains machine.online cpu ≡ true → contains exclude cpu ≡ false → want ≢ [])
  want_mask-bounds = (want_mask-within, want_mask-ne_nil)
