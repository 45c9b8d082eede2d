-- ===== src/Report/Extremes.antt =====
-- Python's `min` and `max` of floats, and `spread` of scripts/report/bench_report.py.
pub mod Laws
use matching_machine.Prelude.{Bool, Option, none, some, List, [], ◌∷◌, if◌then◌else◌}
use matching_machine.Report.Floats.{Order, Arith, lt}

module _ {F : Type 0} ⦃o : Order F⦄ where
  -- `min` and `max` of a first value and the others
  abbrev pub min_from : F → List F → F
  min_from m [] = m
  min_from m (v ∷ values) = min_from (if lt v m then v else m) values

  abbrev pub max_from : F → List F → F
  max_from m [] = m
  max_from m (v ∷ values) = max_from (if lt m v then v else m) values

  abbrev pub max_of : List F → Option F
  max_of [] = none
  max_of (v ∷ values) = some (max_from v values)

module _ {F : Type 0} ⦃o : Order F⦄ ⦃a : Arith F⦄ where
  -- `none` is the `ValueError` on an empty list. The values are positive times.
  unfoldable pub spread : List F → Option F
  spread [] = none
  spread (v ∷ values) =
      some (a.mul (a.sub (a.div (max_from v values) (min_from v values)) (a.of_ℕ 1)) (a.of_ℕ 100))
