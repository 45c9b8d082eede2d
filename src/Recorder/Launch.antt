-- ===== src/Recorder/Launch.antt =====
-- `kill_launch_session` and `launch` of scripts/record/bench_record.py. What the operating system
-- answers is data: the processes that a scan of /proc meets, and the polls of the launch's output.
pub mod Kills
pub mod Stops
pub mod Marks
mod Tests
use matching_machine.Effects.{Result, ok, raise}
use matching_machine.Prelude.{
  ℕ, ◌+◌, ◌-◌, Bool, true, false, ◌||◌, Option, none, some, List, [], ◌∷◌, ◌++◌, ◌==◌, ltb, leb,
  if◌then◌else◌, length,
}

-- A process as the scan meets it: its session, and, once it is pinned, its session again. `none` is
-- a `ProcessLookupError`.
pub record Process : Type 0 where
  pub pid : ℕ
  pub session : Option ℕ
  pub pinned : Option (Option ℕ)

pub data Signal : Type 0 where
  opened closed : ℕ → Signal
  kill_process kill_group : ℕ → Signal

-- The signal to a pinned process, if its session is still the launch's.
unfoldable pub kill_pinned : ℕ → ℕ → Option ℕ → List Signal
kill_pinned session pid none = []
kill_pinned session pid (some s) = if s == session then kill_process pid ∷ [] else []

unfoldable pub kill_seen : ℕ → Process → List Signal
unfolding kill_pinned
kill_seen session p = elim p.session [
  | none ↦ []
  | some s ↦
      if s == session
      then elim p.pinned [
        | none ↦ []
        | some again ↦ opened p.pid ∷ kill_pinned session p.pid again ++ closed p.pid ∷ []
      ]
      else []
]

unfoldable pub kill_all : ℕ → List Process → List Signal
unfolding kill_seen
kill_all session [] = kill_group session ∷ []
kill_all session (p ∷ ps) = kill_seen session p ++ kill_all session ps

-- `none` is the `ValueError`; `own` is the session of the recorder.
unfoldable pub kill_launch_session : (own session : ℕ) → List Process → Option (List Signal)
unfolding kill_all
kill_launch_session own session ps =
    if leb session 1 || session == own then none else some (kill_all session ps)

-- The launch.

-- A mark: the output so far, the time, the CPU time of the launch and the wait of its cores.
pub record Mark : Type 0 where
  pub offset : ℕ
  pub time : ℕ
  pub cpu : ℕ
  pub waited : ℕ

-- Why a launch fails: its own time-out, the refusal to kill, or an exception of a call, a signal
-- included.
pub data Fault : Type 0 where
  timed_out refused : Fault
  raised : ℕ → Fault

-- What the loop meets, turn by turn. `now` is the time of the check against the time-out.
pub data Polls : Type 0 where
  interrupted : Fault → Polls
  silent : (now : ℕ) → (mhz : List ℕ) → Polls → Polls
  -- a read, the process clock (`none` is an `OSError`), the time and the wait of the mark
  reads : (now : ℕ) → List ℕ → (cpu : Option ℕ) → (time waited : ℕ) → Polls → Polls
  -- an exception between the read and the mark
  reads_then : (now : ℕ) → List ℕ → Fault → Polls

-- What the loop has kept.
pub record Kept : Type 0 where
  pub out : List ℕ
  pub marks : List Mark
  pub mhz : List ℕ
  pub cpu_ns : ℕ

-- `timeout is not None and now - t0 > timeout * 1e9`, the time-out in nanoseconds
unfoldable pub is_late : Option ℕ → (t0 now : ℕ) → Bool
is_late none t0 now = false
is_late (some timeout) t0 now = ltb (t0 + timeout) now

abbrev pub or_last : Option ℕ → ℕ → ℕ
or_last none n = n
or_last (some m) n = m

unfoldable pub keep_read : List ℕ → Option ℕ → (time waited : ℕ) → Kept → Kept
keep_read chunk cpu time waited k =
    let out = k.out ++ chunk in
    let cpu_ns = or_last cpu k.cpu_ns in
    record {
      out = out;
      marks =
          k.marks
          ++ record { offset = length out; time = time; cpu = cpu_ns; waited = waited } ∷ [];
      mhz = k.mhz;
      cpu_ns = cpu_ns;
    }

-- The `while True` of `launch`: what it kept, and the exception that left it.
unfoldable pub read_all : Option ℕ → ℕ → Polls → Kept → Kept × Option Fault
unfolding is_late keep_read
read_all timeout t0 (interrupted e) k = (k, some e)
read_all timeout t0 (silent now mhz polls) k =
    let rest = read_all timeout t0 polls (record k { mhz = k.mhz ++ mhz }) in
    if is_late timeout t0 now then (k, some timed_out) else rest
read_all timeout t0 (reads now chunk cpu time waited polls) k =
    let rest = read_all timeout t0 polls (keep_read chunk cpu time waited k) in
    if is_late timeout t0 now
    then (k, some timed_out)
    else (if length chunk == 0 then (k, none) else rest)
read_all timeout t0 (reads_then now chunk e) k =
    if is_late timeout t0 now
    then (k, some timed_out)
    else (if length chunk == 0 then (k, none) else (record k { out = k.out ++ chunk }, some e))

-- The reads without blocking, up to the first empty one; the end of the list is a
-- `BlockingIOError`.
unfoldable pub drain : List (List ℕ) → List ℕ → List ℕ
drain [] out = out
drain (chunk ∷ chunks) out =
    let rest = drain chunks (out ++ chunk) in if length chunk == 0 then out else rest

-- The launch as the operating system runs it.
pub record Run : Type 0 where
  pub pid : ℕ
  pub own_session : ℕ
  pub t0 : ℕ
  -- the waits of the launch's cores before it
  pub waited : ℕ
  pub polls : Polls
  -- `os.wait4`: the exit status, or the exception
  pub reaped : Result Fault ℕ
  pub processes : List Process
  pub left : List (List ℕ)

-- What was done to the launch, in order.
pub data Step : Type 0 where
  signals : List Signal → Step
  waited_for : ℕ → Step
  closed_output : Step

pub record Launched : Type 0 where
  pub output : List ℕ
  pub marks : List Mark
  pub exit_status : ℕ

-- An exception and the output it carries, where the handler came to attach one.
pub record Failed : Type 0 where
  pub fault : Fault
  pub benchmark_output : Option (List ℕ)

-- `except BaseException` after the answer of `kill_launch_session`, then `finally`
unfoldable pub abandon_with :
    Run → List ℕ → Fault → Option (List Signal) → Result Failed Launched × List Step
unfolding drain
abandon_with r out e none =
    (raise (record { fault = refused; benchmark_output = none }), closed_output ∷ [])
abandon_with r out e (some sent) = (
  raise (record { fault = e; benchmark_output = some (drain r.left out) }),
  signals sent ∷ waited_for r.pid ∷ closed_output ∷ [],
)

unfoldable pub abandon : Run → List ℕ → Fault → Result Failed Launched × List Step
unfolding kill_launch_session abandon_with
abandon r out e = abandon_with r out e (kill_launch_session r.own_session r.pid r.processes)

abbrev pub start_mark : Run → Mark
start_mark r = record { offset = 0; time = r.t0; cpu = 0; waited = r.waited }

-- The end of the `try` after `os.wait4`, and what follows the `try`.
unfoldable pub reap_with : Run → Kept → Result Fault ℕ → Result Failed Launched × List Step
unfolding abandon
reap_with r k (ok status) = (
  ok (record { output = k.out; marks = start_mark r ∷ k.marks; exit_status = status }),
  waited_for r.pid ∷ closed_output ∷ [],
)
reap_with r k (raise e) = abandon r k.out e

unfoldable pub reap : Run → Kept → Result Failed Launched × List Step
unfolding reap_with
reap r k = reap_with r k r.reaped

abbrev pub nothing_kept : Kept
nothing_kept = record { out = []; marks = []; mhz = []; cpu_ns = 0 }

unfoldable pub launch : Option ℕ → Run → Result Failed Launched × List Step
unfolding read_all reap
launch timeout r =
    let (k, stopped) = read_all timeout r.t0 r.polls nothing_kept in
    elim stopped [ none ↦ reap r k | some e ↦ abandon r k.out e ]
