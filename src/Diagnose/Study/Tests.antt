-- ===== src/Diagnose/Study/Tests.antt =====
-- A small diagnostic study that is interrupted while it sets up, one that runs through, and each
-- theorem of the study at them.
use matching_machine.Effects.{ok, raise}
use matching_machine.Prelude.{ℕ, ◌*◌, ◌≡◌, refl, true, false, Option, none, some, [], ◌∷◌, length}
use matching_machine.Diagnose.Study.{
  Stop, signalled, finished, done, World, Options, run_study, new_study,
}
use matching_machine.Diagnose.Study.Ends.{
  in_mode, owes_restore, has_recovery, run_study-restores, run_study-leaves_mode,
}
use matching_machine.Diagnose.Study.Blocks.{AreBlocks}
use matching_machine.Diagnose.Study.Complete.{run_study-complete}

abbrev world : Option Stop → World ℕ
world signal = record {
  active = λ t. false;
  setup = λ t. finished 0 signal;
  restore = λ t. finished 0 none;
  listed = λ t. (0, 2 ∷ 3 ∷ []);
  online = λ t. 0 ∷ 1 ∷ 2 ∷ 3 ∷ [];
  own_affinity = λ t. 0 ∷ 1 ∷ 2 ∷ [];
  capture = λ t. none;
  warm_up = λ t. none;
  launch = λ t c. done;
  affinity = λ t. ok (9, 0, 0);
  allowed = λ t. true;
}

abbrev options : Options ℕ
options = record {
  sessions = 1;
  blocks = 2;
  warmup = true;
  cleared = true;
  matrix = 1 ∷ 2 ∷ 3 ∷ [];
}

-- A signal that arrives while the mode is set up stops the study once the set-up is done.
run_study-signalled :
    let (r, s) = run_study (world (some signalled)) options new_study in
    (r ≡ raise signalled) × (length s.launches ≡ 0)
unfolding run_study
run_study-signalled = (refl, refl)

runs_through : (run_study (world none) options new_study).0 ≡ ok tt
unfolding run_study
runs_through = refl

is_complete : (run_study (world none) options new_study).1.complete ≡ true
unfolding run_study
is_complete = refl

-- The second block starts with the second condition.
run_study-launches :
    (run_study (world none) options new_study).1.launches ≡ 1 ∷ 2 ∷ 3 ∷ 2 ∷ 3 ∷ 1 ∷ []
unfolding run_study
run_study-launches = refl

run_study-restores_example :
    owes_restore (run_study (world (some signalled)) options new_study).1.trace ≡ false
run_study-restores_example = run_study-restores (world (some signalled)) options

run_study-leaves_mode_example :
    let final = (run_study (world none) options new_study).1.trace in
    (in_mode final ≡ false) × (has_recovery final ≡ false)
run_study-leaves_mode_example = run_study-leaves_mode (world none) options runs_through

run_study-complete_example :
    AreBlocks options.matrix
      (options.sessions * options.blocks)
      (run_study (world none) options new_study).1.launches
run_study-complete_example = run_study-complete (world none) options is_complete
