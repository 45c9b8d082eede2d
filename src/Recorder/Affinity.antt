-- ===== src/Recorder/Affinity.antt =====
-- `apply_affinity` and `affinity_baseline` of scripts/record/bench_record.py. The kernel's calls on
-- tasks are parameters of the model: `sched_getaffinity`, `sched_setaffinity` and the start times
-- that `task_start` reads. A mask is a list of CPU numbers that is read as a set. A start time is
-- a number, which the source keeps as a text and only compares.
pub mod Masks
pub mod Passes
pub mod Clears
use matching_machine.Prelude.{
  ℕ, zero, suc, ◌+◌, ◌-◌, Bool, true, false, ◌&&◌, Option, none, some, List, [], ◌∷◌, ◌++◌, ◌==◌,
  if◌then◌else◌, inter, diff, or_else, set_eq,
}

-- What `os.sched_getaffinity` answers: a mask, `ProcessLookupError`, or another `OSError`.
pub data Reply : Type 0 where
  mask : List ℕ → Reply
  gone denied : Reply

-- How `os.sched_setaffinity` ends.
pub data Outcome : Type 0 where
  done gone denied : Outcome

-- The kernel as the recorder sees it, over a state `K` of all masks.
pub record Kernel (K : Type 0) : Type 0 where
  pub get_affinity : K → ℕ → Reply
  pub set_affinity : K → ℕ → List ℕ → Outcome × K
  -- `task_start(pid, tid)`, `None` when it cannot be read
  pub start : ℕ → ℕ → Option ℕ

-- An entry of the baseline: the start time and the allowed CPUs of a task.
pub record Entry : Type 0 where
  pub started : Option ℕ
  pub allowed : List ℕ

abbrev pub Baseline : Type 0
Baseline = List (ℕ × Entry)

-- `baseline.get(key)`
abbrev pub lookup_entry : ℕ → Baseline → Option Entry
lookup_entry k [] = none
lookup_entry k ((j, e) ∷ b) = if k == j then some e else lookup_entry k b

-- `entry[0] == task_start(…)`, where both may be `None`
abbrev pub same_start : Option ℕ → Option ℕ → Bool
same_start none none = true
same_start (some a) (some b) = a == b
same_start _ _ = false

-- The counters of a pass, and the `(pid, tid)` pairs that could not be changed.
pub record Tally : Type 0 where
  pub seen : ℕ
  pub changed : ℕ
  pub failed : ℕ
  pub failures : List (ℕ × ℕ)

-- What the recorder reads before a pass: its own pid, the CPUs that are online, every CPU.
pub record Machine : Type 0 where
  pub me : ℕ
  pub online : List ℕ
  pub everything : List ℕ

module _ {K : Type 0} (kernel : Kernel K) (machine : Machine) (baseline : Baseline)
    (exclude : List ℕ) where
  -- The mask that the two keys give, tried in order: the task, then its thread group's leader.
  unfoldable pub owner_mask : ℕ → ℕ → List ℕ → List ℕ
  owner_mask pid owner otherwise = elim (lookup_entry owner baseline) [
    | none ↦ otherwise
    | some e ↦ if same_start e.started (kernel.start pid owner) then e.allowed else otherwise
  ]

  unfoldable pub baseline_mask : ℕ → ℕ → List ℕ
  unfolding owner_mask
  baseline_mask pid tid = owner_mask pid tid (owner_mask pid pid machine.everything)

  -- `(want & online) - exclude or online - exclude`
  unfoldable pub want_mask : ℕ → ℕ → List ℕ
  unfolding baseline_mask
  want_mask pid tid =
      or_else (diff (inter (baseline_mask pid tid) machine.online) exclude)
        (diff machine.online exclude)

  -- The handlers `except ProcessLookupError` and `except OSError`.
  unfoldable pub count_outcome : ℕ → ℕ → Outcome → Tally → Tally
  count_outcome pid tid Outcome.done t = record t { changed = t.changed + 1 }
  count_outcome pid tid Outcome.gone t = record t { seen = t.seen - 1 }
  count_outcome pid tid Outcome.denied t = record t {
    failed = t.failed + 1;
    failures = t.failures ++ (pid, tid) ∷ [];
  }

  -- The body of the `try`.
  unfoldable pub adjust : ℕ → ℕ → Reply → K → Tally → K × Tally
  unfolding count_outcome want_mask
  adjust pid tid Reply.gone k t = (k, count_outcome pid tid Outcome.gone t)
  adjust pid tid Reply.denied k t = (k, count_outcome pid tid Outcome.denied t)
  adjust pid tid (Reply.mask m) k t =
      if set_eq m (want_mask pid tid)
      then (k, t)
      else let (r, k') = kernel.set_affinity k tid (want_mask pid tid) in
        (k', count_outcome pid tid r t)

  -- One round of the `for`.
  unfoldable pub visit_task : ℕ × ℕ → K × Tally → K × Tally
  unfolding adjust
  visit_task (pid, tid) (k, t) =
      if pid == machine.me
      then (k, t)
      else adjust pid tid (kernel.get_affinity k tid) k (record t { seen = t.seen + 1 })

  unfoldable pub visit_tasks : List (ℕ × ℕ) → K × Tally → K × Tally
  unfolding visit_task
  visit_tasks [] s = s
  visit_tasks (task ∷ tasks) s = visit_tasks tasks (visit_task task s)

  unfoldable pub apply_affinity : List (ℕ × ℕ) → K → K × Tally
  unfolding visit_tasks
  apply_affinity tasks k =
      visit_tasks tasks (k, record { seen = 0; changed = 0; failed = 0; failures = [] })

-- `affinity_baseline`: a task whose mask cannot be read is left out.
module _ {K : Type 0} (kernel : Kernel K) (k : K) where
  unfoldable pub affinity_baseline : List (ℕ × ℕ) → Baseline
  affinity_baseline [] = []
  affinity_baseline ((pid, tid) ∷ tasks) = elim (kernel.get_affinity k tid) [
    | Reply.mask m ↦
        (tid, record { started = kernel.start pid tid; allowed = m }) ∷ affinity_baseline tasks
    | _ ↦ affinity_baseline tasks
  ]
