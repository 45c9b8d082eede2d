-- ===== src/Recorder/Study.antt =====
-- `class Study` of scripts/record/bench_record.py: `session`, `leave` and the part of `main` that
-- drives them. What the study does to the machine is a trace of events, newest first, and the
-- machine answers from what was done before. `setup`, the list of cores, a capture, a launch and
-- the reading of its samples may fail; a signal arrives during a capture or a launch.
pub mod Rounds
pub mod Mode
pub mod Launches
mod Tests
use matching_machine.Effects.{
  Result, ok, raise, Action, pure, throw, try_finally, get, modify, raise_if, when, ◌>>=◌, ◌>>◌,
}
use matching_machine.Prelude.{
  ℕ, zero, suc, ◌+◌, ◌-◌, Bool, true, false, ◌&&◌, ◌||◌, not, Option, none, some, List, [], ◌∷◌,
  ◌++◌, ◌==◌, if◌then◌else◌, length, take, subset, diff,
}
use matching_machine.Recorder.Schedule.{Binary, Kind, solo, pair, round_order, round_condition}

pub data Condition : Type 0 where
  shared cleared : Condition

-- One launch: session, round, condition, position, binary and the cores it may use.
pub record Launch : Type 0 where
  pub session : ℕ
  pub round : ℕ
  pub condition : Condition
  pub position : ℕ
  pub binary : Binary
  pub cores : List ℕ
  pub moved : ℕ

pub data Event : Type 0 where
  took_baseline wrote_recovery removed_recovery : Event
  -- `mm-bench-env setup` and `… restore`, with their exit status
  ran_setup ran_restore : ℕ → Event
  -- the affinity of the recorder itself
  set_own_affinity : List ℕ → Event
  captured_env warmed_up : Event
  -- `apply_affinity(self.baseline, exclude)`
  applied_affinity : List ℕ → Event
  launched : Launch → Event

abbrev pub Trace : Type 0
Trace = List Event

-- Why a study stops: the messages of `die`, an exception of a call, and a signal.
pub data Stop : Type 0 where
  setup_failed no_cores cores_not_online binary_failed call_failed signalled : Stop

-- The answers of the machine, each from the trace of what was done before.
pub record World : Type 0 where
  pub setup_status : Trace → ℕ
  pub restore_status : Trace → ℕ
  -- `bench_env.sh cores --list`: its status and the cores it lists
  pub listed : Trace → ℕ × List ℕ
  pub online : Trace → List ℕ
  -- the exception of `capture_env`, if it raises
  pub capture : Trace → Option Stop
  -- the exit status of a launch, or the exception that it raises
  pub launch : Trace → Result Stop ℕ
  -- the exception of reading the launch's samples, if it raises
  pub samples : Trace → Option Stop
  -- what `apply_affinity` returns: tasks seen, changed, failed
  pub affinity : Trace → ℕ × ℕ × ℕ

pub record Options : Type 0 where
  pub sessions : ℕ
  pub rounds : ℕ
  pub conditions : List Condition
  pub unpinned : Bool

pub record Study : Type 0 where
  -- whether `self.baseline` is set
  pub baseline : Bool
  pub entered : Bool
  pub round_index : ℕ
  pub launches : List Launch
  pub trace : Trace

abbrev pub Do : Type 0 → Type 0
Do A = Action Study Stop A

abbrev pub emit : Event → Do (Unit {0})
emit e = modify (λ s. record s { trace = e ∷ s.trace })

abbrev pub cores_of : Kind → List ℕ → List ℕ
cores_of solo cores = take 1 cores
cores_of pair cores = cores

module _ (world : World) (o : Options) where
  unfoldable pub capture_env : Do (Unit {0})
  capture_env = do
    s ← get
    emit captured_env
    elim (world.capture s.trace) [ none ↦ pure tt | some e ↦ throw e ]

  -- `apply_affinity`, with the number of tasks that it changed and that it could not change
  unfoldable pub apply : List ℕ → Do (ℕ × ℕ × ℕ)
  apply exclude = do s ← get; emit (applied_affinity exclude); pure (world.affinity s.trace)

  -- `launch` and the check of its exit status, in `one`
  unfoldable pub one : Launch → Do (Unit {0})
  one l = do
    s ← get
    emit (launched l)
    status ← elim (world.launch s.trace) [ ok n ↦ pure n | raise e ↦ throw e ]
    raise_if (not (status == 0)) binary_failed
    modify (λ s'. record s' { launches = s'.launches ++ l ∷ [] })
    elim (world.samples s.trace) [ none ↦ pure tt | some e ↦ throw e ]

  -- `apply_affinity(self.baseline, measure)[1] if condition == "cleared" else 0`
  unfoldable pub clear_tasks : Condition → List ℕ → Do ℕ
  unfolding apply
  clear_tasks cleared cores = do counts ← apply cores; pure counts.1
  clear_tasks shared cores = pure 0

  -- The `finally` of a round.
  unfoldable pub return_tasks : Condition → Do (Unit {0})
  unfolding apply
  return_tasks cleared = do apply []; pure tt
  return_tasks shared = pure tt

  -- The binaries of one round, from a position on.
  unfoldable pub run_binaries :
      (session round : ℕ) → Condition → List ℕ → ℕ → List (Binary × Kind) → Do (Unit {0})
  unfolding clear_tasks one
  run_binaries s r c cores position [] = pure tt
  run_binaries s r c cores position ((b, kind) ∷ order) = do
    changed ← clear_tasks c cores
    one (record {
      session = s;
      round = r;
      condition = c;
      position = position;
      binary = b;
      cores = cores_of kind cores;
      moved = changed;
    })
    run_binaries s r c cores (position + 1) order

  unfoldable pub next_round : Do (Unit {0})
  next_round = modify (λ st. record st { round_index = st.round_index + 1 })

  unfoldable pub run_round : (session round : ℕ) → Condition → List ℕ → Do (Unit {0})
  unfolding run_binaries round_order return_tasks next_round
  run_round s r c cores = do
    study ← get
    next_round
    try_finally (run_binaries s r c cores 1 (round_order study.round_index)) (return_tasks c)

  unfoldable pub run_in : Option Condition → (session round : ℕ) → List ℕ → Do (Unit {0})
  unfolding run_round
  run_in none s r cores = throw call_failed
  run_in (some c) s r cores = run_round s r c cores

  -- The rounds that are left, from round `r` on. The list of conditions is not empty: `split` gives
  -- at least one part.
  unfoldable pub run_rounds : (session round left : ℕ) → List ℕ → Do (Unit {0})
  unfolding run_in round_condition
  run_rounds s r zero cores = pure tt
  run_rounds s r (suc left) cores = do
    run_in (round_condition o.conditions s r) s r cores
    run_rounds s (r + 1) left cores

  -- `leave`: the mode first, then the affinities.
  unfoldable pub leave_mode : Do (Unit {0})
  leave_mode = do
    s ← get
    when s.entered (do
      emit (ran_restore (world.restore_status s.trace))
      modify (λ s'. record s' { entered = false }))

  unfoldable pub leave_tasks : Do (Unit {0})
  unfolding apply
  leave_tasks = do
    s ← get
    when s.baseline (do
      emit (set_own_affinity (world.online s.trace))
      apply []
      apply []
      modify (λ s'. record s' { baseline = false })
      emit removed_recovery)

  unfoldable pub leave : Do (Unit {0})
  unfolding leave_mode leave_tasks
  leave = do leave_mode; leave_tasks

  unfoldable pub enter_mode : Do (Unit {0})
  enter_mode = do
    s ← get
    emit (ran_setup (world.setup_status s.trace))
    raise_if (not (world.setup_status s.trace == 0)) setup_failed
    modify (λ s'. record s' { entered = true })

  -- The cores to measure on, with the two checks.
  unfoldable pub find_cores : Do (List ℕ)
  find_cores = do
    s ← get
    let (status, cores) = world.listed s.trace
    raise_if (not (status == 0) || not (length cores == 2)) no_cores
    let online = world.online s.trace
    raise_if (not (subset cores online) || (length (diff online cores) == 0)) cores_not_online
    emit (set_own_affinity (diff online cores))
    pure cores

  unfoldable pub begin : Do (Unit {0})
  begin = do emit took_baseline; modify (λ st. record st { baseline = true }); emit wrote_recovery

  -- The session behind its set-up, `leave` included.
  unfoldable pub measure : ℕ → List ℕ → Do (Unit {0})
  unfolding capture_env run_rounds leave
  measure s cores = do
    capture_env
    emit warmed_up
    run_rounds s 1 o.rounds cores
    capture_env
    leave

  unfoldable pub session : ℕ → Do (Unit {0})
  unfolding begin enter_mode find_cores measure
  session s = do begin; when (not o.unpinned) enter_mode; cores ← find_cores; measure s cores

  unfoldable pub run_sessions : (first left : ℕ) → Do (Unit {0})
  unfolding session
  run_sessions s zero = pure tt
  run_sessions s (suc left) = do session s; run_sessions (s + 1) left

  -- The `try` of `main`.
  unfoldable pub run_study : Do (Unit {0})
  unfolding run_sessions leave
  run_study = try_finally (run_sessions 1 o.sessions) leave

abbrev pub new_study : Study
new_study = record { baseline = false; entered = false; round_index = 0; launches = []; trace = [] }
