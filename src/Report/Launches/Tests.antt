-- ===== src/Report/Launches/Tests.antt =====
-- The launch test and the test of groups on small numbers.
use matching_machine.Prelude.{ℕ, ◌+◌, ◌≡◌, refl, some, List, [], ◌∷◌, ◌++◌}
use matching_machine.Report.Floats.{nat_order, nat_arith}
use matching_machine.Report.Permutation.{Random}
use matching_machine.Report.Median.{median}
use matching_machine.Report.Ranks.{ranks}
use matching_machine.Summary.Grouping.{add_to}
use matching_machine.Report.Launches.{launch_test, group_test}

abbrev rotate : List ℕ → List ℕ
rotate [] = []
rotate (v ∷ vs) = vs ++ v ∷ []

abbrev random : Random ℕ ℕ
random = record { shuffle = λ seed vs. (seed + 1, rotate vs) }

abbrev groups : List (List ℕ)
groups = (20 ∷ 30 ∷ 10 ∷ []) ∷ (60 ∷ 80 ∷ []) ∷ []

launch_test-groups : (launch_test random groups 2 0).1 ≡ some (200, 0, 0)
unfolding launch_test median ranks
launch_test-groups = refl

group_test-groups : (group_test random (20 ∷ 30 ∷ 60 ∷ []) (4 ∷ 4 ∷ 5 ∷ []) 2 0).1 ≡ some (100, 0)
unfolding group_test ranks add_to median
group_test-groups = refl
