-- ===== src/Report/Tests.antt =====
-- The statistics on small lists of whole numbers, and each theorem at a concrete input.
use matching_machine.Prelude.{
  ℕ, ◌+◌, ◌/◌, ◌≤◌, ◌≡◌, ◌≢◌, refl, some, List, [], ◌∷◌, ◌++◌, map, arith,
}
use matching_machine.Report.Floats.{nat_order, nat_arith}
use matching_machine.Report.Ranks.{ranks}
use matching_machine.Report.Ranks.Counts.{rank_of}
use matching_machine.Report.Ranks.Laws.{ranks-rank_of}
use matching_machine.Report.Median.{median}
use matching_machine.Report.Median.Laws.{Halves, median-Halves}
use matching_machine.Report.Permutation.{Random, rank_sum_test}
use matching_machine.Report.Permutation.Bounds.{rank_sum_test-bounds}

abbrev times : List ℕ
times = 30 ∷ 10 ∷ 20 ∷ 10 ∷ []

-- Both values of 10 have the rank 1 1/2.
ranks-times : ranks times ≡ 8 ∷ 3 ∷ 6 ∷ 3 ∷ []
unfolding ranks
ranks-times = refl

median-times : median times ≡ some 15
unfolding median
median-times = refl

times_ne_nil : times ≢ []
times_ne_nil = λ e. cc

median-Halves_example : (m : ℕ) × (median times ≡ some m) × Halves times m
median-Halves_example = median-Halves times times_ne_nil

-- A generator that brings the first value to the end.
abbrev rotate : List ℕ → List ℕ
rotate [] = []
rotate (v ∷ vs) = vs ++ v ∷ []

abbrev random : Random ℕ ℕ
random = record { shuffle = λ seed vs. (seed + 1, rotate vs) }

ranks-rank_of_example : ranks times ≡ map (rank_of times) times
ranks-rank_of_example = ranks-rank_of times

rank_sum_test-bounds_example :
    (k : ℕ) × ((rank_sum_test random times (2 ∷ 2 ∷ []) 9 0).1 ≡ some (k / (9 + 1)))
    × (1 ≤ k)
    × (k ≤ 9 + 1)
rank_sum_test-bounds_example =
    rank_sum_test-bounds random times (2 ∷ 2 ∷ []) 9 0 (omega arith, (omega arith, tt))
