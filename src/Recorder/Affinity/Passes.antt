-- ===== src/Recorder/Affinity/Passes.antt =====
-- The counters of one pass of `apply_affinity`.
use matching_machine.Prelude.{ℕ, ◌+◌, ◌≤◌, ◌≡◌, List, [], ◌∷◌, arith, length, length-append}
use matching_machine.Recorder.Affinity.{
  Kernel, Machine, Baseline, Tally, visit_task, visit_tasks, apply_affinity,
}

-- After `n` tasks: the changed and the failed ones are among those seen, each failure is listed.
abbrev pub IsCounted : ℕ → Tally → Type 0
IsCounted n t = (t.changed + t.failed ≤ t.seen) × (t.seen ≤ n) × (length t.failures ≡ t.failed)

module _ {K : Type 0} (kernel : Kernel K) (machine : Machine) (baseline : Baseline)
    (exclude : List ℕ) where
  visit_task-IsCounted :
      (n : ℕ) (task : ℕ × ℕ) (s : K × Tally)
      → IsCounted n s.1
      → IsCounted (n + 1) (visit_task kernel machine baseline exclude task s).1
  unfolding visit_task
  visit_task-IsCounted n task s h = ground (arith, length-append s.1.failures (task ∷ []))

  visit_tasks-IsCounted :
      (n : ℕ) (tasks : List (ℕ × ℕ)) (s : K × Tally)
      → IsCounted n s.1
      → IsCounted (n + length tasks) (visit_tasks kernel machine baseline exclude tasks s).1
  unfolding visit_tasks
  visit_tasks-IsCounted n [] s h = ground arith
  visit_tasks-IsCounted n (task ∷ tasks) s h = ground (
    arith,
    visit_tasks-IsCounted (n + 1) tasks (visit_task kernel machine baseline exclude task s)
        (visit_task-IsCounted n task s h),
  )

  -- Whatever the kernel answers, a pass counts no more tasks as changed or failed than as seen, and
  -- no more as seen than there are, and it lists one failure for each that it counts.
  pub apply_affinity-IsCounted :
      (tasks : List (ℕ × ℕ)) (k : K)
      → IsCounted (length tasks) (apply_affinity kernel machine baseline exclude tasks k).1
  unfolding apply_affinity
  apply_affinity-IsCounted tasks k = ground (
    arith,
    visit_tasks-IsCounted 0 tasks (k, record { seen = 0; changed = 0; failed = 0; failures = [] })
        (omega arith),
  )
