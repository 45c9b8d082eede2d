-- ===== src/Diagnose/Study.antt =====
-- `class DiagnosticStudy` of scripts/record/bench_diagnose.py: `session`, `clear`, `one`, `leave`,
-- and the part of `main` that drives them. What the study does to the machine is a trace of events,
-- newest first, and the machine answers from what was done before. `C` is a condition of the matrix.
pub mod Ends
pub mod Blocks
pub mod Complete
mod Tests
use matching_machine.Effects.{
  Result, ok, raise, Action, pure, throw, try_finally, get, modify, raise_if, when, ◌>>=◌, ◌>>◌,
}
use matching_machine.Prelude.{
  ℕ, zero, suc, ◌+◌, ◌-◌, Bool, true, false, ◌&&◌, ◌||◌, not, Option, none, some, List, [], ◌∷◌,
  ◌++◌, ◌==◌, if◌then◌else◌, length, subset, diff, inter,
}
use matching_machine.Recorder.Schedule.{block_order}

-- Why a study stops: the exceptions that it raises, those of the calls, and signals.
pub data Stop : Type 0 where
  mode_active setup_failed bad_cores warm_up_failed not_cleared launch_exit bad_repetitions
        cleanup_failed call_failed signalled :
      Stop

pub data Event (C : Type 0) : Type 0 where
  took_baseline wrote_recovery removed_recovery : Event C
  -- `privileged("setup")` that returned, and `privileged("restore")`, with the exit status
  ran_setup : ℕ → Event C
  -- `none` when the call itself raised
  ran_restore : Option ℕ → Event C
  set_own_affinity : List ℕ → Event C
  captured_env warmed_up checkpointed archived : Event C
  applied_affinity : List ℕ → Event C
  launched : C → Event C

-- How `privileged` ends: an exit status and the first signal that arrived meanwhile, or an
-- exception. Signals are held back until the helper is done.
pub data Answer : Type 0 where
  finished : ℕ → Option Stop → Answer
  failed : Stop → Answer

-- What a launch and the reading of its samples came to: an exception of `launch`, an exit status
-- that is not zero, an exception after that, or nothing.
pub data Launched : Type 0 where
  not_launched unread : Stop → Launched
  exited : ℕ → Launched
  done : Launched

pub record World (C : Type 0) : Type 0 where
  pub active : List (Event C) → Bool
  pub setup : List (Event C) → Answer
  pub restore : List (Event C) → Answer
  -- the exit status of `cores --list` and the cores that it lists
  pub listed : List (Event C) → ℕ × List ℕ
  pub online : List (Event C) → List ℕ
  -- `os.sched_getaffinity(0)`
  pub own_affinity : List (Event C) → List ℕ
  pub capture : List (Event C) → Option Stop
  pub warm_up : List (Event C) → Option Stop
  pub launch : List (Event C) → C → Launched
  -- `apply_affinity`: tasks seen, changed, not changeable; or an exception
  pub affinity : List (Event C) → Result Stop (ℕ × ℕ × ℕ)
  -- whether all tasks that refused belong to processes named with --allow-unmovable
  pub allowed : List (Event C) → Bool

pub record Options (C : Type 0) : Type 0 where
  pub sessions : ℕ
  pub blocks : ℕ
  pub warmup : Bool
  pub cleared : Bool
  pub matrix : List C

pub record Study (C : Type 0) : Type 0 where
  pub complete : Bool
  -- whether `self.baseline` is set
  pub baseline : Bool
  pub setup_attempted : Bool
  pub original_affinity : List ℕ
  pub launches : List C
  pub trace : List (Event C)

abbrev pub Do : Type 0 → Type 0 → Type 0
Do C A = Action (Study C) Stop A

module _ {C : Type 0} where
  abbrev pub emit : Event C → Do C (Unit {0})
  emit e = modify (λ s. record s { trace = e ∷ s.trace })

  abbrev pub raise_some : Option Stop → Do C (Unit {0})
  raise_some none s = (ok tt, s)
  raise_some (some e) s = (raise e, s)

module _ {C : Type 0} (world : World C) (o : Options C) where
  -- An answer of `apply_affinity`, or its exception.
  abbrev pub counts_of : Result Stop (ℕ × ℕ × ℕ) → Do C (ℕ × ℕ × ℕ)
  counts_of (ok n) s = (ok n, s)
  counts_of (raise e) s = (raise e, s)

  unfoldable pub apply : List ℕ → Do C (ℕ × ℕ × ℕ)
  apply exclude = do s ← get; emit (applied_affinity exclude); counts_of (world.affinity s.trace)

  unfoldable pub capture_env : Do C (Unit {0})
  capture_env = do s ← get; emit captured_env; raise_some (world.capture s.trace)

  -- `clear`, and its absence under `--interference shared`.
  unfoldable pub clear : List ℕ → Do C (Unit {0})
  unfolding apply
  clear measure s =
      if o.cleared
      then (do apply measure; raise_if (not (world.allowed s.trace)) not_cleared) s
      else (ok tt, s)

  -- The row is written as soon as the launch has returned, before its exit status is looked at.
  abbrev pub record_launch : C → Launched → Do C (Unit {0})
  record_launch c (not_launched e) s = (raise e, s)
  record_launch c (exited n) s = (
    if n == 0 then ok tt else raise launch_exit,
    record s { launches = s.launches ++ c ∷ []; trace = checkpointed ∷ s.trace },
  )
  record_launch c (unread e) s =
      (raise e, record s { launches = s.launches ++ c ∷ []; trace = checkpointed ∷ s.trace })
  record_launch c done s =
      (ok tt, record s { launches = s.launches ++ c ∷ []; trace = checkpointed ∷ s.trace })

  unfoldable pub one : C → Do C (Unit {0})
  one c = do s ← get; emit (launched c); record_launch c (world.launch s.trace c); emit checkpointed

  unfoldable pub run_conditions : List ℕ → List C → Do C (Unit {0})
  unfolding clear one
  run_conditions measure [] = pure tt
  run_conditions measure (c ∷ order) = do clear measure; one c; run_conditions measure order

  -- The blocks that are left, from `block` on.
  unfoldable pub run_blocks : List ℕ → (number block left : ℕ) → Do C (Unit {0})
  unfolding run_conditions block_order
  run_blocks measure number block zero = pure tt
  run_blocks measure number block (suc left) = do
    run_conditions measure (block_order o.matrix o.blocks number block)
    run_blocks measure number (block + 1) left

  -- The error of the restore, and the signal that arrived during it.
  abbrev pub restored : Answer → Study C → Option Stop × Option Stop × Study C
  restored (finished status pending) s =
      let s' = record s { trace = ran_restore (some status) ∷ s.trace } in
      if status == 0
      then (none, pending, record s' { setup_attempted = false })
      else (some cleanup_failed, pending, s')
  restored (failed e) s =
      (some cleanup_failed, none, record s { trace = ran_restore none ∷ s.trace })

  unfoldable pub leave_mode : Study C → Option Stop × Option Stop × Study C
  leave_mode s = if s.setup_attempted then restored (world.restore s.trace) s else (none, none, s)

  abbrev pub has_errors : Option Stop → Bool
  has_errors none = false
  has_errors (some e) = true

  -- The second of two passes, with the affinity of the recorder: an error if a task is not at its
  -- baseline. The recovery file goes only if there was no error at all.
  abbrev pub second_pass : Bool → Result Stop (ℕ × ℕ × ℕ) → Study C → Bool × Study C
  second_pass errors (raise e) s = (true, record s { trace = applied_affinity [] ∷ s.trace })
  second_pass errors (ok (seen, wrong, unchangeable)) s =
      let t = applied_affinity [] ∷ s.trace in
      let t' = set_own_affinity (inter s.original_affinity (world.online t)) ∷ t in
      if errors || not (wrong == 0) || not (unchangeable == 0)
      then (true, record s { trace = t' })
      else (false, record s { baseline = false; trace = removed_recovery ∷ t' })

  abbrev pub first_pass : Bool → Result Stop (ℕ × ℕ × ℕ) → Study C → Bool × Study C
  first_pass errors (raise e) s = (true, record s { trace = applied_affinity [] ∷ s.trace })
  first_pass errors (ok n) s =
      let s' = record s { trace = applied_affinity [] ∷ s.trace } in
      second_pass errors (world.affinity s'.trace) s'

  unfoldable pub leave_tasks : Bool → Study C → Bool × Study C
  leave_tasks errors s =
      if s.baseline then first_pass errors (world.affinity s.trace) s else (errors, s)

  -- `leave`: a signal that was held back goes before the errors.
  abbrev pub conclude : Option Stop → Bool × Study C → Result Stop (Unit {0}) × Study C
  conclude (some e) (errors, s) = (raise e, record s { trace = checkpointed ∷ s.trace })
  conclude none (true, s) = (raise cleanup_failed, s)
  conclude none (false, s) = (ok tt, s)

  unfoldable pub leave : Do C (Unit {0})
  unfolding leave_mode leave_tasks
  leave s =
      let (error, pending, s') = leave_mode s in
      conclude pending (leave_tasks (has_errors error) s')

  abbrev pub set_up : Answer → Do C (Unit {0})
  set_up (failed e) s = (raise e, s)
  set_up (finished status pending) s =
      let s' = record s { trace = ran_setup status ∷ s.trace } in
      if status == 0 then raise_some pending s' else (raise setup_failed, s')

  unfoldable pub find_cores : Do C (List ℕ)
  find_cores = do
    s ← get
    let (status, cores) = world.listed s.trace
    let online = world.online s.trace
    raise_if
        (not (status == 0)
          || not (length cores == 2)
          || not (subset cores online)
          || length (diff online cores) == 0)
        bad_cores
    emit (set_own_affinity (diff online cores))
    pure cores

  -- The set-up of a session, up to the cores that are measured.
  unfoldable pub enter : Do C (List ℕ)
  unfolding find_cores
  enter = do s ← get; set_up (world.setup s.trace); find_cores

  unfoldable pub warm_up : Do C (Unit {0})
  warm_up = do s ← get; when o.warmup (do emit warmed_up; raise_some (world.warm_up s.trace))

  -- The `try` from the capture on; its `finally` captures the environment again.
  unfoldable pub measure : ℕ → List ℕ → Do C (Unit {0})
  unfolding warm_up run_blocks
  measure number cores = do emit checkpointed; warm_up; run_blocks cores number 1 o.blocks

  unfoldable pub body : ℕ → Do C (Unit {0})
  unfolding enter capture_env measure
  body number = do cores ← enter; capture_env; try_finally (measure number cores) capture_env

  unfoldable pub begin : Do C (Unit {0})
  begin = do
    s ← get
    raise_if (world.active s.trace) mode_active
    modify (λ s'. record s' {
      original_affinity = world.own_affinity s.trace;
      baseline = true;
      trace = wrote_recovery ∷ took_baseline ∷ s'.trace;
      setup_attempted = true;
    })

  unfoldable pub session : ℕ → Do C (Unit {0})
  unfolding begin body leave
  session number = do begin; try_finally (body number) leave

  unfoldable pub run_sessions : (number left : ℕ) → Do C (Unit {0})
  unfolding session
  run_sessions number zero = pure tt
  run_sessions number (suc left) = do session number; run_sessions (number + 1) left

  unfoldable pub mark_complete : Do C (Unit {0})
  mark_complete = modify (λ s. record s { complete = true })

  -- `archive`, in the `finally` of `main`.
  unfoldable pub archive : Do C (Unit {0})
  archive = do emit checkpointed; emit archived

  -- The `try` of `main` behind `prepare`.
  unfoldable pub run_study : Do C (Unit {0})
  unfolding run_sessions mark_complete archive
  run_study = try_finally (do run_sessions 1 o.sessions; mark_complete) archive

abbrev pub new_study : {C : Type 0} → Study C
new_study = record {
  complete = false;
  baseline = false;
  setup_attempted = false;
  original_affinity = [];
  launches = [];
  trace = [];
}
