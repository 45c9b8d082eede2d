-- ===== src/Recorder/Study/Launches.antt =====
-- A pinned study launches its binaries in measurement mode only.
use matching_machine.Effects.{
  Keeps, Ensures, Keeps-bind, Ensures-bind, Ensures-of_Keeps, Keeps-of_Ensures, Keeps-pure, when,
}
use matching_machine.Prelude.{ℕ, zero, suc, ◌+◌, ◌≡◌, true, false, not, List, arith}
use matching_machine.Recorder.Study.{
  Launch, World, Options, Study, capture_env, apply, one, next_round, leave, enter_mode, find_cores,
  begin, measure, session, run_sessions, run_study, new_study, emit, warmed_up,
}
use matching_machine.Recorder.Study.Rounds.{run_rounds-Keeps}
use matching_machine.Recorder.Study.Mode.{awaits_restore, AreInMode}

abbrev Before : Study → Type 0
Before s = AreInMode s.trace

abbrev Inside : Study → Type 0
Inside s = (awaits_restore s.trace ≡ true) × AreInMode s.trace

module _ (world : World) (o : Options) where
  capture_env-Inside : Keeps Inside (capture_env world o)
  unfolding capture_env
  capture_env-Inside = record { apply = λ s h. ground arith }

  one-Inside : (l : Launch) → Keeps Inside (one world o l)
  unfolding one
  one-Inside l = record { apply = λ s h. ground arith }

  apply-Inside : (exclude : List ℕ) → Keeps Inside (apply world o exclude)
  unfolding apply
  apply-Inside exclude = record { apply = λ s h. ground arith }

  next_round-Inside : Keeps Inside (next_round world o)
  unfolding next_round
  next_round-Inside = record { apply = λ s h. h }

  warm_up-Inside : Keeps Inside (emit warmed_up)
  warm_up-Inside = record { apply = λ s h. h }

  find_cores-Inside : Keeps Inside (find_cores world o)
  unfolding find_cores
  find_cores-Inside = record { apply = λ s h. ground arith }

  begin-Before : Keeps Before (begin world o)
  unfolding begin
  begin-Before = record { apply = λ s h. h }

  leave-Before : Keeps Before (leave world o)
  unfolding leave
  leave-Before = record { apply = λ s h. ground arith }

  leave-Inside : Ensures Inside Before Before (leave world o)
  leave-Inside =
      let keeps = Ensures-of_Keeps {R = Before} (λ st h. h) leave-Before in
      record { apply = λ s h. keeps.apply s h.1 }

  enter_mode-Inside :
      o.unpinned ≡ false → Ensures Before Inside Before (when (not o.unpinned) (enter_mode world o))
  unfolding enter_mode
  enter_mode-Inside pinned = record { apply = λ s h. ground arith }

  measure-Inside : (s : ℕ) (cores : List ℕ) → Ensures Inside Before Before (measure world o s cores)
  unfolding measure
  measure-Inside s cores =
      let weaken = λ (st : Study) (h : Inside st). h.1 in
      Ensures-bind (Ensures-of_Keeps weaken capture_env-Inside) λ _.
        Ensures-bind (Ensures-of_Keeps weaken warm_up-Inside) λ _.
          Ensures-bind
            (Ensures-of_Keeps weaken (
              run_rounds-Keeps world o Inside one-Inside apply-Inside next_round-Inside s 1 o.rounds
                cores))
            λ _. Ensures-bind (Ensures-of_Keeps weaken capture_env-Inside) (λ _. leave-Inside)

  module _ (pinned : o.unpinned ≡ false) where
    session-Before : (s : ℕ) → Keeps Before (session world o s)
    unfolding session
    session-Before s = Keeps-of_Ensures (
        Ensures-bind (Ensures-of_Keeps (λ _ h. h) begin-Before) λ _.
          Ensures-bind (enter_mode-Inside pinned)
            λ _. Ensures-bind (Ensures-of_Keeps (λ _ h. h.1) find_cores-Inside) (measure-Inside s))

    run_sessions-Before : (s left : ℕ) → Keeps Before (run_sessions world o s left)
    unfolding run_sessions
    run_sessions-Before s zero = Keeps-pure tt
    run_sessions-Before s (suc left) =
        Keeps-bind (session-Before s) (λ _. run_sessions-Before (s + 1) left)

    -- In a study that is not unpinned every launch is made in measurement mode, behind a set-up that
    -- succeeded and that no restore has followed.
    pub run_study-AreInMode : AreInMode (run_study world o new_study).1.trace
    unfolding run_study
    run_study-AreInMode =
        leave-Before.apply (run_sessions world o 1 o.sessions new_study).1
          ((run_sessions-Before 1 o.sessions).apply new_study tt)
