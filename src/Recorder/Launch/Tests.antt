-- ===== src/Recorder/Launch/Tests.antt =====
-- A launch that prints two lines and ends, and each theorem of a launch at it.
use matching_machine.Effects.{ok, raise}
use matching_machine.Prelude.{ℕ, ◌≡◌, ◌≢◌, refl, none, some, List, [], ◌∷◌, arith}
use matching_machine.Recorder.Launch.{
  Process, kill_launch_session, timed_out, Polls, interrupted, silent, reads, Run, launch,
}
use matching_machine.Recorder.Launch.Kills.{Answers, kill_launch_session-Kills}
use matching_machine.Recorder.Launch.Stops.{Stops, heard, launch-Stops}
use matching_machine.Recorder.Launch.Marks.{MarksCover, launch-MarksCover}

-- Process 71 leaves the session before it is pinned, 72 is of another one, 73 is gone.
abbrev processes : List Process
processes =
    record { pid = 70; session = some 70; pinned = some (some 70) }
    ∷ record { pid = 71; session = some 70; pinned = some (some 5) }
    ∷ record { pid = 72; session = some 9; pinned = none }
    ∷ record { pid = 73; session = none; pinned = none }
    ∷ []

abbrev polls : Polls
polls = silent 10 (2400 ∷ []) (
    reads 20 (66 ∷ 77 ∷ 10 ∷ []) (some 7) 21 100
      (reads 30 (66 ∷ 10 ∷ []) none 31 120 (reads 40 [] none 41 130 (interrupted timed_out))))

abbrev run : Run
run = record {
  pid = 70;
  own_session = 4;
  t0 = 1;
  waited = 90;
  polls = polls;
  reaped = ok 0;
  processes = processes;
  left = (33 ∷ []) ∷ [];
}

launch-run :
    (launch none run).0
    ≡ ok (record {
      output = 66 ∷ 77 ∷ 10 ∷ 66 ∷ 10 ∷ [];
      marks =
          record { offset = 0; time = 1; cpu = 0; waited = 90 }
          ∷ record { offset = 3; time = 21; cpu = 7; waited = 100 }
          ∷ record { offset = 5; time = 31; cpu = 7; waited = 120 }
          ∷ [];
      exit_status = 0;
    })
unfolding launch
launch-run = refl

-- With a time-out of 25 the second read comes too late, and what was left in the pipe is kept.
launch-late :
    (launch (some 25) run).0
    ≡ raise (record { fault = timed_out; benchmark_output = some (66 ∷ 77 ∷ 10 ∷ 33 ∷ []) })
unfolding launch
launch-late = refl

abbrev recorder_session : ℕ
recorder_session = 4

other_session : run.pid ≢ recorder_session
other_session = omega arith

kill_launch_session-Kills_example : Answers 4 70 processes (kill_launch_session 4 70 processes)
kill_launch_session-Kills_example = kill_launch_session-Kills 4 70 processes

launch-Stops_example : Stops run (heard (some 25) run.t0 run.polls) (launch (some 25) run)
launch-Stops_example = launch-Stops (some 25) run (omega arith) other_session

launch-MarksCover_example : MarksCover run (launch none run)
launch-MarksCover_example = launch-MarksCover none run
