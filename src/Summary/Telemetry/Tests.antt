-- ===== src/Summary/Telemetry/Tests.antt =====
-- A telemetry table of three launches.
use matching_machine.Effects.{ok, raise}
use matching_machine.Prelude.{ℕ, ◌≡◌, refl, List, [], ◌∷◌}
use matching_machine.Report.Floats.{nat_order, nat_arith}
use matching_machine.Report.Sort.{sorted}
use matching_machine.Report.Median.{median}
use matching_machine.Summary.Grouping.{group_all, add_to}
use matching_machine.Summary.Telemetry.{Launch, wall_not_positive, row_of, telemetry_rows}

abbrev launch : (condition wall foreign throttle : ℕ) → Launch ℕ
launch condition wall foreign throttle = record {
  condition = condition;
  binary = 3;
  wall_s = wall;
  foreign_ms = foreign;
  suspended_s = 0;
  throttle_core = throttle;
  throttle_package = 0;
  device_irqs = 1;
  thermal_irqs = 0;
}

abbrev launches : List (Launch ℕ)
launches = launch 7 10 80 1 ∷ launch 6 10 20 0 ∷ launch 7 5 20 2 ∷ []

telemetry_rows-launches :
    telemetry_rows launches
    ≡ ok (
        record {
          condition = 6;
          binary = 3;
          launches = 1;
          throttle_core = 0;
          throttle_package = 0;
          device_irqs = 1;
          thermal_irqs = 0;
          suspended_s = 0;
          foreign_median = 2;
          foreign_max = 2;
          foreign_above_5 = 0;
        }
        ∷ record {
          condition = 7;
          binary = 3;
          launches = 2;
          throttle_core = 3;
          throttle_package = 0;
          device_irqs = 2;
          thermal_irqs = 0;
          suspended_s = 0;
          foreign_median = 6;
          foreign_max = 8;
          foreign_above_5 = 1;
        }
        ∷ [])
unfolding telemetry_rows group_all add_to sorted median row_of
telemetry_rows-launches = refl

telemetry_rows_stopped : telemetry_rows (launch 7 0 1 0 ∷ []) ≡ raise wall_not_positive
unfolding telemetry_rows group_all add_to sorted row_of
telemetry_rows_stopped = refl
