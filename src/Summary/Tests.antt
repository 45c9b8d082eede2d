-- ===== src/Summary/Tests.antt =====
-- A study of two launches, and the theorem on it.
use matching_machine.Effects.{ok, raise}
use matching_machine.Prelude.{ℕ, ◌≡◌, refl, Bool, true, some, List, [], ◌∷◌, ltb}
use matching_machine.Summary.{
  Key, LaunchRow, Sample, incomplete_repetitions, whole, Environment, summarize,
}
use matching_machine.Summary.Complete.{IsAccepted, summarize-IsAccepted}

abbrev first_key : Key
first_key = record { session = 1; block = 1; condition = 7; binary = 3 }

abbrev second_key : Key
second_key = record { session = 1; block = 2; condition = 7; binary = 3 }

abbrev launches : List LaunchRow
launches =
    record { key = first_key; exit_status = 0 } ∷ record { key = second_key; exit_status = 0 } ∷ []

abbrev sample : Key → (repetition : ℕ) → (warmup : ℕ) → (time : ℕ) → Sample ℕ
sample k n w t = record { key = k; benchmark = 5; warmup = w; repetition = n; time = t }

-- Repetition 0 of each launch is a warm-up.
abbrev samples : List (Sample ℕ)
samples =
    sample first_key 0 1 900
    ∷ sample first_key 1 0 110
    ∷ sample second_key 0 1 800
    ∷ sample second_key 1 0 130
    ∷ []

abbrev environment : (repetitions : ℕ) → Environment
environment n = record { complete = some true; repetitions = whole n; warmup = whole 1 }

abbrev is_time : ℕ → Bool
is_time = ltb 0

summarize-two :
    summarize is_time (environment 2) samples launches
    ≡ ok (
        record { key = first_key; benchmark = 5; times = (1, 110) ∷ [] }
        ∷ record { key = second_key; benchmark = 5; times = (1, 130) ∷ [] }
        ∷ [])
unfolding summarize
summarize-two = refl

-- With three repetitions one is missing.
summarize-three : summarize is_time (environment 3) samples launches ≡ raise incomplete_repetitions
unfolding summarize
summarize-three = refl

summarize-IsAccepted_example :
    IsAccepted is_time samples launches
      (environment 2)
      (summarize is_time (environment 2) samples launches)
summarize-IsAccepted_example = summarize-IsAccepted is_time samples launches (environment 2)
