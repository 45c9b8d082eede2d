-- ===== src/Recorder/Study/Rounds.antt =====
-- A predicate that holds around every single action of a round holds around the rounds.
use matching_machine.Effects.{Keeps, Keeps-bind, Keeps-finally, Keeps-pure, Keeps-throw, Keeps-get}
use matching_machine.Prelude.{ℕ, zero, suc, ◌+◌, Option, none, some, List, [], ◌∷◌}
use matching_machine.Recorder.Schedule.{Binary, Kind, round_order, round_condition}
use matching_machine.Recorder.Study.{
  Condition, shared, cleared, Launch, World, Options, Study, apply, one, next_round, clear_tasks,
  return_tasks, run_binaries, run_round, run_in, run_rounds,
}

-- A predicate that the single actions keep is kept by the rounds.
module _ (world : World) (o : Options) (P : Study → Type 0)
    (kept_one : (l : Launch) → Keeps P (one world o l))
    (kept_apply : (exclude : List ℕ) → Keeps P (apply world o exclude))
    (kept_next : Keeps P (next_round world o)) where
  clear_tasks-Keeps : (c : Condition) (cores : List ℕ) → Keeps P (clear_tasks world o c cores)
  unfolding clear_tasks
  clear_tasks-Keeps cleared cores = Keeps-bind (kept_apply cores) (λ counts. Keeps-pure counts.1)
  clear_tasks-Keeps shared cores = Keeps-pure 0

  return_tasks-Keeps : (c : Condition) → Keeps P (return_tasks world o c)
  unfolding return_tasks
  return_tasks-Keeps cleared = Keeps-bind (kept_apply []) (λ counts. Keeps-pure tt)
  return_tasks-Keeps shared = Keeps-pure tt

  run_binaries-Keeps :
      (s r : ℕ) (c : Condition) (cores : List ℕ) (position : ℕ) (order : List (Binary × Kind))
      → Keeps P (run_binaries world o s r c cores position order)
  unfolding run_binaries
  run_binaries-Keeps s r c cores position [] = Keeps-pure tt
  run_binaries-Keeps s r c cores position ((binary, kind) ∷ order) =
      Keeps-bind (clear_tasks-Keeps c cores)
        λ changed. Keeps-bind (kept_one _) λ _. run_binaries-Keeps s r c cores (position + 1) order

  run_round-Keeps :
      (s r : ℕ) (c : Condition) (cores : List ℕ) → Keeps P (run_round world o s r c cores)
  unfolding run_round
  run_round-Keeps s r c cores = Keeps-bind (Keeps-get) λ study. Keeps-bind kept_next λ _.
      Keeps-finally (run_binaries-Keeps s r c cores 1 (round_order study.round_index))
        (return_tasks-Keeps c)

  run_in-Keeps :
      (c : Option Condition) (s r : ℕ) (cores : List ℕ) → Keeps P (run_in world o c s r cores)
  unfolding run_in
  run_in-Keeps none s r cores = Keeps-throw _
  run_in-Keeps (some c) s r cores = run_round-Keeps s r c cores

  pub run_rounds-Keeps :
      (s r left : ℕ) (cores : List ℕ) → Keeps P (run_rounds world o s r left cores)
  unfolding run_rounds
  run_rounds-Keeps s r zero cores = Keeps-pure tt
  run_rounds-Keeps s r (suc left) cores =
      Keeps-bind (run_in-Keeps (round_condition o.conditions s r) s r cores)
        (λ _. run_rounds-Keeps s (r + 1) left cores)
