-- ===== src/Recorder/Tests.antt =====
-- Runs of the recorder's functions on small inputs, and each theorem at a concrete input.
use matching_machine.Prelude.{
  ℕ, ◌+◌, ◌≡◌, refl, not, some, List, [], ◌∷◌, arith, ◌==◌, if◌then◌else◌, All, diff, contains,
  contains-select,
}
use matching_machine.Recorder.Affinity.{
  Reply, mask, Outcome, done, Kernel, Machine, Baseline, apply_affinity,
}
use matching_machine.Recorder.Affinity.Passes.{IsCounted, apply_affinity-IsCounted}
use matching_machine.Recorder.Affinity.Clears.{
  IsKernel, AreDistinct, IsHandled, apply_affinity_clears,
}

-- A kernel that refuses to move task 30, and that keeps task 11 from CPU 2.
abbrev kernel : Kernel (ℕ → Reply)
kernel = record {
  get_affinity = λ k t. k t;
  set_affinity = λ k t m.
      if t == 30
      then (Outcome.denied, k)
      else (done, λ s. if s == t then mask (if t == 11 then diff m (2 ∷ []) else m) else k s);
  start = λ pid tid. some (tid + 100);
}

kernel-IsKernel : IsKernel kernel
kernel-IsKernel = record {
  written =
      λ k t m m' e q cpu h. ground (arith, contains-select (λ y. not (contains (2 ∷ []) y)) m cpu);
  lost = λ k t m h. ground arith;
  others = λ k s t m h. ground arith;
}

abbrev machine : Machine
machine = record { me = 5; online = 0 ∷ 1 ∷ 2 ∷ 3 ∷ []; everything = 0 ∷ 1 ∷ 2 ∷ 3 ∷ 4 ∷ 5 ∷ [] }

abbrev tasks : List (ℕ × ℕ)
tasks = (5, 5) ∷ (10, 10) ∷ (10, 11) ∷ (30, 30) ∷ (40, 41) ∷ []

abbrev masks : ℕ → Reply
masks t = if t == 41 then Reply.gone else mask (0 ∷ 1 ∷ [])

abbrev measured : List ℕ
measured = 0 ∷ []

abbrev baseline : Baseline
baseline = (10, record { started = some 110; allowed = 0 ∷ 1 ∷ [] }) ∷ []

-- Task 10 and, through its leader, 11 have a baseline; 30 gets every CPU; 41 is gone.
apply_affinity-tasks :
    (apply_affinity kernel machine baseline measured tasks masks).1
    ≡ record { seen = 3; changed = 2; failed = 1; failures = (30, 30) ∷ [] }
unfolding apply_affinity
apply_affinity-tasks = refl

apply_affinity-IsCounted_example :
    IsCounted 5 (apply_affinity kernel machine baseline measured tasks masks).1
apply_affinity-IsCounted_example =
    apply_affinity-IsCounted kernel machine baseline measured tasks masks

tasks-AreDistinct : AreDistinct tasks
tasks-AreDistinct = omega arith

apply_affinity_clears_example :
    let (k', t) = apply_affinity kernel machine baseline measured tasks masks in
    All (IsHandled kernel machine baseline measured k' t.failures) tasks
apply_affinity_clears_example =
    apply_affinity_clears kernel machine baseline measured kernel-IsKernel tasks masks
      tasks-AreDistinct
