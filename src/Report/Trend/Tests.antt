-- ===== src/Report/Trend/Tests.antt =====
-- The trend test on two launches and on four, and the theorem on them.
use matching_machine.Prelude.{ℕ, ◌+◌, ◌/◌, ◌≡◌, refl, List, [], ◌∷◌, ◌++◌}
use matching_machine.Report.Floats.{nat_order, nat_arith}
use matching_machine.Report.Permutation.{Random}
use matching_machine.Report.Ranks.{ranks}
use matching_machine.Report.Trend.{nan, number, Correlation, trend_test}
use matching_machine.Report.Trend.Answers.{IsAnswer, trend_test-IsAnswer}

-- Stands for a correlation: the last rank.
abbrev last_rank : List ℕ → List ℕ → ℕ
last_rank x [] = 0
last_rank x (v ∷ []) = v
last_rank x (v ∷ w ∷ y) = last_rank x (w ∷ y)

abbrev st : Correlation ℕ
st = record { correlation = last_rank; abs = λ v. v }

abbrev rotate : List ℕ → List ℕ
rotate [] = []
rotate (v ∷ vs) = vs ++ v ∷ []

abbrev random : Random ℕ ℕ
random = record { shuffle = λ seed vs. (seed + 1, rotate vs) }

-- Two launches have no trend, and no p of nine shuffles is smaller than theirs.
trend_test_of_two : trend_test st random (20 ∷ 30 ∷ []) 9 0 ≡ (9, nan, 1 / 10)
unfolding trend_test
trend_test_of_two = refl

trend_test_of_four : trend_test st random (10 ∷ 20 ∷ 30 ∷ 40 ∷ []) 3 0 ≡ (3, number 4, 1 / 4)
unfolding trend_test ranks
trend_test_of_four = refl

trend_test-IsAnswer_example : IsAnswer st random (20 ∷ 30 ∷ []) 9 (nan, 1 / 10)
unfolding trend_test
trend_test-IsAnswer_example = trend_test-IsAnswer st random (20 ∷ 30 ∷ []) 9 0
