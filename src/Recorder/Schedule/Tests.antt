-- ===== src/Recorder/Schedule/Tests.antt =====
-- The rotation of the binaries.
use matching_machine.Prelude.{ℕ, ◌+◌, ◌%◌, ◌<◌, ◌≡◌, refl, List, [], ◌∷◌, arith, length, get_elem?}
use matching_machine.Recorder.Schedule.{binaries, rotation}
use matching_machine.Recorder.Schedule.Balance.{rotation-balanced}

abbrev four : List ℕ
four = 1 ∷ 2 ∷ 3 ∷ 4 ∷ []

rotation-six : rotation four 6 ≡ 3 ∷ 4 ∷ 1 ∷ 2 ∷ []
unfolding rotation
rotation-six = refl

rotation-balanced_example :
    (r : ℕ) × (r < length binaries)
    × (get_elem? (rotation binaries (6 + r)) 3 ≡ get_elem? binaries 0)
    × ((r' : ℕ) → r' < length binaries → (6 + r' + 3) % length binaries ≡ 0 → r' ≡ r)
rotation-balanced_example = rotation-balanced binaries 6 3 0 (omega arith) (omega arith)
