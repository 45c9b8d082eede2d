-- ===== src/Recorder/Study/Tests.antt =====
-- A small study that a launch fails, and each theorem of the study at it.
use matching_machine.Effects.{ok, raise}
use matching_machine.Prelude.{ℕ, ◌+◌, ◌≡◌, refl, false, none, [], ◌∷◌, ◌==◌, length, if◌then◌else◌}
use matching_machine.Recorder.Study.{
  shared, cleared, launched, Trace, binary_failed, World, Options, run_study, new_study,
}
use matching_machine.Recorder.Study.Mode.{AreInMode}
use matching_machine.Recorder.Study.Launches.{run_study-AreInMode}

abbrev launches_in : Trace → ℕ
launches_in [] = 0
launches_in (launched l ∷ t) = launches_in t + 1
launches_in (_ ∷ t) = launches_in t

-- The seventh launch exits with status 3.
abbrev world : World
world = record {
  setup_status = λ t. 0;
  restore_status = λ t. 1;
  listed = λ t. (0, 2 ∷ 3 ∷ []);
  online = λ t. 0 ∷ 1 ∷ 2 ∷ 3 ∷ [];
  capture = λ t. none;
  launch = λ t. if launches_in t == 6 then ok 3 else ok 0;
  samples = λ t. none;
  affinity = λ t. (9, 4, 0);
}

abbrev options : Options
options = record { sessions = 2; rounds = 2; conditions = shared ∷ cleared ∷ []; unpinned = false }

-- The study stops at the failed launch, and the six before it are recorded.
run_study-stops :
    let (r, s) = run_study world options new_study in
    (r ≡ raise binary_failed) × (length s.launches ≡ 6)
unfolding run_study
run_study-stops = (refl, refl)

run_study-AreInMode_example : AreInMode (run_study world options new_study).1.trace
run_study-AreInMode_example = run_study-AreInMode world options refl
