-- ===== src/Diagnose/Study/Ends.antt =====
-- How a diagnostic study leaves the machine: whatever stops it, a restore is the last thing done to
-- measurement mode, and a study that ends without an exception has left the mode and no recovery
-- file.
use matching_machine.Effects.{
  ok, Keeps, Ensures, Keeps-bind, Keeps-finally, Keeps-pure, Keeps-get, Ensures-bind,
  Ensures-finally, Ensures-finish, Ensures-ok, Ensures-both,
}
use matching_machine.Prelude.{
  ℕ, zero, suc, ◌+◌, ◌≡◌, refl, Bool, true, false, some, List, [], ◌∷◌, arith, ◌==◌, if◌then◌else◌,
}
use matching_machine.Recorder.Schedule.{block_order}
use matching_machine.Diagnose.Study.{
  Stop, Event, Answer, set_up, find_cores, mark_complete, archive, wrote_recovery, removed_recovery,
  ran_setup, ran_restore, World, Options, Study, emit, capture_env, clear, one, run_conditions,
  run_blocks, leave, enter, warm_up, measure, body, begin, session, run_sessions, run_study,
  new_study, checkpointed,
}

module _ {C : Type 0} where
  -- Whether the machine is in measurement mode: a helper that fails leaves it as it was.
  abbrev pub in_mode : List (Event C) → Bool
  in_mode [] = false
  in_mode (ran_setup n ∷ t) = if n == 0 then true else in_mode t
  in_mode (ran_restore (some n) ∷ t) = if n == 0 then false else in_mode t
  in_mode (_ ∷ t) = in_mode t

  -- Whether no restore was tried since the last set-up.
  abbrev pub owes_restore : List (Event C) → Bool
  owes_restore [] = false
  owes_restore (ran_setup n ∷ t) = true
  owes_restore (ran_restore n ∷ t) = false
  owes_restore (_ ∷ t) = owes_restore t

  abbrev pub has_recovery : List (Event C) → Bool
  has_recovery [] = false
  has_recovery (wrote_recovery ∷ t) = true
  has_recovery (removed_recovery ∷ t) = false
  has_recovery (_ ∷ t) = has_recovery t

  -- Between the begin of a session and its `leave`.
  abbrev Busy : Study C → Type 0
  Busy s = (s.setup_attempted ≡ true) × (s.baseline ≡ has_recovery s.trace)

  abbrev Left : Study C → Type 0
  Left s = owes_restore s.trace ≡ false

  -- Between two sessions.
  abbrev Clean : Study C → Type 0
  Clean s =
      (owes_restore s.trace ≡ false)
      × (in_mode s.trace ≡ false)
      × (has_recovery s.trace ≡ false)
      × (s.setup_attempted ≡ false)
      × (s.baseline ≡ false)

module _ {C : Type 0} (world : World C) (o : Options C) where
  capture_env-Busy : Keeps Busy (capture_env world o)
  unfolding capture_env
  capture_env-Busy = record { apply = λ s h. ground arith }

  clear-Busy : (measure : List ℕ) → Keeps Busy (clear world o measure)
  unfolding clear
  clear-Busy measure = record { apply = λ s h. ground arith }

  one-Busy : (c : C) → Keeps Busy (one world o c)
  unfolding one
  one-Busy c = record { apply = λ s h. ground arith }

  set_up-Busy : (a : Answer) → Keeps Busy (set_up world o a)
  set_up-Busy a = record { apply = λ s h. ground arith }

  find_cores-Busy : Keeps Busy (find_cores world o)
  unfolding find_cores
  find_cores-Busy = record { apply = λ s h. ground arith }

  enter-Busy : Keeps Busy (enter world o)
  unfolding enter
  enter-Busy =
      Keeps-bind Keeps-get
        λ s. Keeps-bind (set_up-Busy (world.setup s.trace)) (λ _. find_cores-Busy)

  warm_up-Busy : Keeps Busy (warm_up world o)
  unfolding warm_up
  warm_up-Busy = record { apply = λ s h. ground arith }

  checkpoint-Busy : Keeps {E = Stop} Busy (emit {C = C} checkpointed)
  checkpoint-Busy = record { apply = λ s h. h }

  begin-Busy : Ensures Clean Busy Left (begin world o)
  unfolding begin
  begin-Busy = record { apply = λ s h. ground arith }

  leave-Clean : Ensures Busy Clean Left (leave world o)
  unfolding leave
  leave-Clean = record { apply = λ s h. ground arith }

  run_conditions-Busy :
      (measure : List ℕ) (order : List C) → Keeps Busy (run_conditions world o measure order)
  unfolding run_conditions
  run_conditions-Busy measure [] = Keeps-pure tt
  run_conditions-Busy measure (c ∷ order) =
      Keeps-bind (clear-Busy measure)
        λ _. Keeps-bind (one-Busy c) (λ _. run_conditions-Busy measure order)

  run_blocks-Busy :
      (measure : List ℕ) (number block left : ℕ)
      → Keeps Busy (run_blocks world o measure number block left)
  unfolding run_blocks
  run_blocks-Busy measure number block zero = Keeps-pure tt
  run_blocks-Busy measure number block (suc left) =
      Keeps-bind (run_conditions-Busy measure (block_order o.matrix o.blocks number block))
        (λ _. run_blocks-Busy measure number (block + 1) left)

  measure-Busy : (number : ℕ) (cores : List ℕ) → Keeps Busy (measure world o number cores)
  unfolding measure
  measure-Busy number cores =
      Keeps-bind checkpoint-Busy
        λ _. Keeps-bind warm_up-Busy (λ _. run_blocks-Busy cores number 1 o.blocks)

  body-Busy : (number : ℕ) → Keeps Busy (body world o number)
  unfolding body
  body-Busy number = Keeps-bind enter-Busy λ cores.
      Keeps-bind capture_env-Busy (λ _. Keeps-finally (measure-Busy number cores) capture_env-Busy)

  session-Clean : (number : ℕ) → Ensures Clean Clean Left (session world o number)
  unfolding session
  session-Clean number =
      Ensures-bind begin-Busy (λ _. Ensures-finally (λ s h. h.0) (body-Busy number) leave-Clean)

  run_sessions-Clean :
      (number left : ℕ) → Ensures Clean Clean Left (run_sessions world o number left)
  unfolding run_sessions
  run_sessions-Clean number zero = record { apply = λ s h. h }
  run_sessions-Clean number (suc left) =
      Ensures-bind (session-Clean number) (λ _. run_sessions-Clean (number + 1) left)

  complete-Clean : Ensures {E = Stop} Clean Clean Left (mark_complete world o)
  unfolding mark_complete
  complete-Clean = record { apply = λ s h. h }

  archive-Clean : Keeps {E = Stop} Clean (archive world o)
  unfolding archive
  archive-Clean = record { apply = λ s h. h }

  archive-Left : Keeps {E = Stop} Left (archive world o)
  unfolding archive
  archive-Left = record { apply = λ s h. h }

  archive_total : (s : Study C) → (archive world o s).0 ≡ ok tt
  unfolding archive
  archive_total s = refl

  run_study-Clean : Ensures Clean Clean Left (run_study world o)
  unfolding run_study
  run_study-Clean =
      Ensures-finish archive_total archive-Clean archive-Left
        (Ensures-bind (run_sessions-Clean 1 o.sessions) (λ _. complete-Clean))

  new_study-Clean : Clean (new_study {C = C})
  new_study-Clean = (refl, refl, refl, refl, refl)

  -- However a diagnostic study ends, a restore was tried after its last set-up.
  pub run_study-restores : owes_restore (run_study world o new_study).1.trace ≡ false
  run_study-restores = Ensures-both (λ s h. h.0) run_study-Clean new_study new_study-Clean

  -- If a diagnostic study ends without an exception, the machine is not in measurement mode, the
  -- restore having succeeded, and no recovery file is left.
  pub run_study-leaves_mode :
      (run_study world o new_study).0 ≡ ok tt
      → let final = (run_study world o new_study).1.trace in
        (in_mode final ≡ false) × (has_recovery final ≡ false)
  run_study-leaves_mode e =
      let clean = Ensures-ok run_study-Clean new_study tt new_study-Clean e in (clean.1, clean.2)
