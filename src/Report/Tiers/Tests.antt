-- ===== src/Report/Tiers/Tests.antt =====
-- The tiers of a small list of whole numbers. Products are rounded up here, so that the variance of a
-- split lies above the start value.
use matching_machine.Prelude.{ℕ, min, ◌≡◌, refl, some, ◌+◌, ◌-◌, ◌*◌, ◌/◌, List, [], ◌∷◌, arith}
use matching_machine.Report.Floats.{Arith, nat_order, nat_mean_ge, nat_mean_le}
use matching_machine.Report.Tiers.{Real, between, tier_threshold}
use matching_machine.Report.Median.{median}
use matching_machine.Summary.Grouping.{group_all, add_to}
use matching_machine.Report.Tiers.Shares.{Cell, tier_summary}
use matching_machine.Report.Tiers.Gap.{IsPositive, AreTiersOf, tier_threshold-AreTiers}

instance abbrev rounded : Arith ℕ
rounded = record {
  add = ◌+◌;
  sub = ◌-◌;
  mul = λ m n. m * n + 1;
  div = ◌/◌;
  of_ℕ = λ n. n;
  mean_ge = nat_mean_ge;
  mean_le = nat_mean_le;
}

abbrev real : Real ℕ
real = record { log = λ n. n; exp = λ n. n; sqrt = λ n. min n 20; minus_one = 0 }

abbrev times : List ℕ
times = 41 ∷ 10 ∷ 12 ∷ 40 ∷ []

real-IsPositive : IsPositive real
unfolding between
real-IsPositive total n i left = ground arith

tier_threshold-AreTiers_example : AreTiersOf real times (tier_threshold real times)
tier_threshold-AreTiers_example = tier_threshold-AreTiers real real-IsPositive times

abbrev cell : (region placement value : ℕ) → Cell ℕ
cell region placement value = record { region = region; placement = placement; value = value }

abbrev launches : List (List (Cell ℕ))
launches =
    (cell 0 0 41 ∷ cell 0 1 40 ∷ cell 1 0 12 ∷ [])
    ∷ (cell 0 0 10 ∷ cell 0 1 42 ∷ cell 1 0 11 ∷ [])
    ∷ []

tier_summary-launches :
    tier_summary real launches
    ≡ some (
        some (record {
          threshold = 20;
          gap = 1;
          fast = 12 ∷ 10 ∷ [];
          slow = 40 ∷ 42 ∷ [];
          share = (0, 0) ∷ (1, 1) ∷ [];
          both = 1;
        }))
unfolding tier_summary tier_threshold median group_all add_to
tier_summary-launches = refl
