-- ===== src/Recorder/Study/Mode.antt =====
-- Measurement mode and the baseline, at every end of a study.
use matching_machine.Prelude.{ℕ, ◌≡◌, Bool, true, false, [], ◌∷◌, ◌==◌, if◌then◌else◌}
use matching_machine.Recorder.Study.{
  wrote_recovery, removed_recovery, ran_setup, ran_restore, launched, Trace, Study,
}

-- Whether the machine is in measurement mode after what was done, newest first. A set-up or a restore
-- that fails changes nothing.
abbrev pub in_mode : Trace → Bool
in_mode [] = false
in_mode (ran_setup n ∷ t) = if n == 0 then true else in_mode t
in_mode (ran_restore n ∷ t) = if n == 0 then false else in_mode t
in_mode (_ ∷ t) = in_mode t

-- Whether a set-up has succeeded after which no restore was run, with success or without.
abbrev pub awaits_restore : Trace → Bool
awaits_restore [] = false
awaits_restore (ran_setup n ∷ t) = if n == 0 then true else awaits_restore t
awaits_restore (ran_restore n ∷ t) = false
awaits_restore (_ ∷ t) = awaits_restore t

-- The exit status of the newest restore.
abbrev pub last_restore : Trace → ℕ
last_restore [] = 0
last_restore (ran_restore n ∷ t) = n
last_restore (_ ∷ t) = last_restore t

-- Whether a recovery file lies in the study's directory.
abbrev pub has_recovery : Trace → Bool
has_recovery [] = false
has_recovery (wrote_recovery ∷ t) = true
has_recovery (removed_recovery ∷ t) = false
has_recovery (_ ∷ t) = has_recovery t

-- Every launch was made in measurement mode, behind a set-up that no restore has followed.
abbrev pub AreInMode : Trace → Type 0
AreInMode [] = Unit
AreInMode (launched l ∷ t) = (awaits_restore t ≡ true) × AreInMode t
AreInMode (_ ∷ t) = AreInMode t

-- What the study knows of the machine is so.
abbrev pub Agrees : Study → Type 0
Agrees s = (s.entered ≡ awaits_restore s.trace) × (s.baseline ≡ has_recovery s.trace)
