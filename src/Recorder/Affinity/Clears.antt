-- ===== src/Recorder/Affinity/Clears.antt =====
-- What one pass of `apply_affinity` promises of each task, with and without excluded CPUs.
use matching_machine.Prelude.{
  ℕ, ◌+◌, ◌≡◌, ◌≢◌, ◌⊎◌, inl, inr, refl, sym, subst, Bool, true, false, ◌&&◌, List, [], ◌∷◌, ◌++◌,
  arith, ◌==◌, any, All, contains, set_eq, contains_of_set_eq, Bool-cases,
}
use matching_machine.Recorder.Affinity.{
  Reply, Outcome, Kernel, Machine, Baseline, Tally, want_mask, count_outcome, adjust, visit_task,
  visit_tasks, apply_affinity,
}
use matching_machine.Recorder.Affinity.Masks.{want_mask-within}

-- What sched_setaffinity(2) says of a call: the mask that a task has afterwards is within the one that
-- was written, as the kernel takes away CPUs outside of the task's cpuset; a task that the call does
-- not find is not found later either; and the other tasks keep their masks. How a call ends may depend
-- on the task, on the mask and on all else.
pub record IsKernel {K : Type 0} (kernel : Kernel K) : Type 0 where
  pub written :
      (k : K) (t : ℕ) (m m' : List ℕ)
      → (kernel.set_affinity k t m).0 ≡ Outcome.done
      → kernel.get_affinity (kernel.set_affinity k t m).1 t ≡ Reply.mask m'
      → (cpu : ℕ) → contains m' cpu ≡ true
      → contains m cpu ≡ true
  pub lost :
      (k : K) (t : ℕ) (m : List ℕ)
      → (kernel.set_affinity k t m).0 ≡ Outcome.gone
      → kernel.get_affinity (kernel.set_affinity k t m).1 t ≡ Reply.gone
  pub others :
      (k : K) (s t : ℕ) (m : List ℕ)
      → s ≢ t
      → kernel.get_affinity (kernel.set_affinity k t m).1 s ≡ kernel.get_affinity k s

abbrev pub IsAbsent : ℕ → List (ℕ × ℕ) → Type 0
IsAbsent s tasks = All (λ task. s ≢ task.1) tasks

-- Thread ids are unique in the system.
abbrev pub AreDistinct : List (ℕ × ℕ) → Type 0
AreDistinct [] = Unit
AreDistinct (task ∷ tasks) = IsAbsent task.1 tasks × AreDistinct tasks

abbrev pub is_listed : List (ℕ × ℕ) → ℕ × ℕ → Bool
is_listed failures (pid, tid) = any (λ f. f.0 == pid && f.1 == tid) failures

is_listed-last :
    (failures : List (ℕ × ℕ)) (task : ℕ × ℕ) → is_listed (failures ++ task ∷ []) task ≡ true
is_listed-last [] task = ground arith
is_listed-last (f ∷ failures) task = ground (arith, is_listed-last failures task)

is_listed-append :
    (failures more : List (ℕ × ℕ)) (task : ℕ × ℕ)
    → is_listed failures task ≡ true
    → is_listed (failures ++ more) task ≡ true
is_listed-append [] more task h = cc
is_listed-append (f ∷ failures) more task h = ground (arith, is_listed-append failures more task)

module _ {K : Type 0} (kernel : Kernel K) (machine : Machine) (baseline : Baseline)
    (exclude : List ℕ) where
  -- A reply is no mask, or one of CPUs that are online and not excluded.
  abbrev pub IsClear : Reply → Type 0
  IsClear (Reply.mask m) =
      (cpu : ℕ)
      → contains m cpu ≡ true
      → (contains machine.online cpu ≡ true) × (contains exclude cpu ≡ false)
  IsClear _ = Unit

  -- A task is the recorder's own, or it is listed as failed, or it runs where it should.
  abbrev pub IsHandled : K → List (ℕ × ℕ) → ℕ × ℕ → Type 0
  IsHandled k failures task =
      (task.0 ≡ machine.me)
      ⊎ (is_listed failures task ≡ true)
      ⊎ IsClear (kernel.get_affinity k task.1)

  abbrev WasHandled : ℕ × ℕ → K × Tally → Type 0
  WasHandled task s = IsHandled s.0 s.1.failures task

  want : ℕ × ℕ → List ℕ
  want task = want_mask kernel machine baseline exclude task.0 task.1

  count_outcome-failures :
      (task : ℕ × ℕ) (r : Outcome) (t : Tally) (other : ℕ × ℕ)
      → is_listed t.failures other ≡ true
      → is_listed (count_outcome kernel machine baseline exclude task.0 task.1 r t).failures other
        ≡ true
  unfolding count_outcome
  count_outcome-failures task Outcome.done t other h = h
  count_outcome-failures task Outcome.gone t other h = h
  count_outcome-failures task Outcome.denied t other h =
      is_listed-append t.failures (task ∷ []) other h

  -- A mask within the wanted one is clear.
  IsClear-of_want :
      (task : ℕ × ℕ) (r : Reply)
      → ((m : List ℕ)
          → r ≡ Reply.mask m
          → (cpu : ℕ) → contains m cpu ≡ true
          → contains (want task) cpu ≡ true)
      → IsClear r
  unfolding want
  IsClear-of_want task (Reply.mask m) h =
      λ cpu c. want_mask-within kernel machine baseline exclude task.0 task.1 cpu (h m refl cpu c)
  IsClear-of_want task Reply.gone h = tt
  IsClear-of_want task Reply.denied h = tt

  module _ (laws : IsKernel kernel) where
    outcome-WasHandled :
        (task : ℕ × ℕ) (k : K) (t : Tally) (r : Outcome)
        → (kernel.set_affinity k task.1 (want task)).0 ≡ r
        → WasHandled task (
          (kernel.set_affinity k task.1 (want task)).1,
          count_outcome kernel machine baseline exclude task.0 task.1 r t,
        )
    unfolding count_outcome
    outcome-WasHandled task k t Outcome.done e =
        inr (inr (IsClear-of_want task _ (λ m q. laws.written k task.1 (want task) m e q)))
    outcome-WasHandled task k t Outcome.gone e =
        inr (inr (subst IsClear (sym (laws.lost k task.1 (want task) e)) tt))
    outcome-WasHandled task k t Outcome.denied e = inr (inl (is_listed-last t.failures task))

    adjust-WasHandled :
        (task : ℕ × ℕ) (r : Reply) (k : K) (t : Tally)
        → kernel.get_affinity k task.1 ≡ r
        → WasHandled task (adjust kernel machine baseline exclude task.0 task.1 r k t)
    unfolding adjust count_outcome want
    adjust-WasHandled task Reply.gone k t e = inr (inr (subst IsClear (sym e) tt))
    adjust-WasHandled task Reply.denied k t e = inr (inl (is_listed-last t.failures task))
    adjust-WasHandled task (Reply.mask m) k t e =
        elim (Bool-cases (set_eq m (want_mask kernel machine baseline exclude task.0 task.1))) [
          | inl q ↦ rw q (
              inr (
                inr (
                  subst IsClear (sym e) (λ cpu c.
                    want_mask-within kernel machine baseline exclude task.0 task.1 cpu
                      (contains_of_set_eq m (want task) cpu q c)))))
          | inr q ↦ rw q (outcome-WasHandled task k t _ refl)
        ]

    visit-WasHandled :
        (task : ℕ × ℕ) (s : K × Tally)
        → WasHandled task (visit_task kernel machine baseline exclude task s)
    unfolding visit_task
    visit-WasHandled task s = elim (Bool-cases (task.0 == machine.me)) [
      | inl q ↦ rw q (inl (ground arith))
      | inr q ↦ rw q (
          adjust-WasHandled task (kernel.get_affinity s.0 task.1) s.0
            (record s.1 { seen = s.1.seen + 1 }) refl)
    ]

    adjust-failures :
        (task other : ℕ × ℕ) (r : Reply) (k : K) (t : Tally)
        → is_listed t.failures other ≡ true
        → is_listed (adjust kernel machine baseline exclude task.0 task.1 r k t).1.failures other
          ≡ true
    unfolding adjust
    adjust-failures task other Reply.gone k t h = count_outcome-failures task Outcome.gone t other h
    adjust-failures task other Reply.denied k t h =
        count_outcome-failures task Outcome.denied t other h
    adjust-failures task other (Reply.mask m) k t h =
        elim (Bool-cases (set_eq m (want_mask kernel machine baseline exclude task.0 task.1))) [
          | inl q ↦ rw q h
          | inr q ↦ rw q (count_outcome-failures task _ t other h)
        ]

    visit-failures :
        (task other : ℕ × ℕ) (s : K × Tally)
        → is_listed s.1.failures other ≡ true
        → is_listed (visit_task kernel machine baseline exclude task s).1.failures other ≡ true
    unfolding visit_task
    visit-failures task other s h = elim (Bool-cases (task.0 == machine.me)) [
      | inl q ↦ rw q h
      | inr q ↦ rw q (
          adjust-failures task other (kernel.get_affinity s.0 task.1) s.0
            (record s.1 { seen = s.1.seen + 1 }) h)
    ]

    visit-ne :
        (t : ℕ) (task : ℕ × ℕ) (s : K × Tally)
        → t ≢ task.1
        → kernel.get_affinity (visit_task kernel machine baseline exclude task s).0 t
          ≡ kernel.get_affinity s.0 t
    unfolding visit_task adjust
    visit-ne t task s h =
        ground (
          arith,
          laws.others s.0 t task.1 (want_mask kernel machine baseline exclude task.0 task.1),
        )

    visits-keep :
        (other : ℕ × ℕ) (tasks : List (ℕ × ℕ)) (s : K × Tally)
        → IsAbsent other.1 tasks
        → WasHandled other s
        → WasHandled other (visit_tasks kernel machine baseline exclude tasks s)
    unfolding visit_tasks
    visits-keep other [] s absent h = h
    visits-keep other (task ∷ tasks) s absent h =
        visits-keep other tasks (visit_task kernel machine baseline exclude task s) absent.1
          (elim h [
            | inl e ↦ inl e
            | inr (inl l) ↦ inr (inl (visit-failures task other s l))
            | inr (inr c) ↦ inr (inr (subst IsClear (sym (visit-ne other.1 task s absent.0)) c))
          ])

    visits-WereHandled :
        (tasks : List (ℕ × ℕ)) (s : K × Tally)
        → AreDistinct tasks
        → All (λ task. WasHandled task (visit_tasks kernel machine baseline exclude tasks s)) tasks
    unfolding visit_tasks
    visits-WereHandled [] s d = tt
    visits-WereHandled (task ∷ tasks) s d =
        let s' = visit_task kernel machine baseline exclude task s in
        (visits-keep task tasks s' d.0 (visit-WasHandled task s), visits-WereHandled tasks s' d.1)

    -- After a pass over distinct tasks, under the laws of the kernel, each task of another process is
    -- among the failures that are returned, or it has no mask that can be read, or it runs on CPUs
    -- that are online and not excluded.
    pub apply_affinity_clears :
        (tasks : List (ℕ × ℕ)) (k : K)
        → AreDistinct tasks
        → let (k', t) = apply_affinity kernel machine baseline exclude tasks k in
          All (IsHandled k' t.failures) tasks
    unfolding apply_affinity
    apply_affinity_clears tasks k d = visits-WereHandled tasks _ d
