-- ===== src/Recorder/Telemetry/Record/Tests.antt =====
-- What is read of the package's zone, of the frequencies and of the CPUs.
use matching_machine.Prelude.{ℕ, ◌≡◌, refl, true, false, none, some, List, [], ◌∷◌}
use matching_machine.Report.Floats.{nat_order, nat_arith}
use matching_machine.Recorder.Telemetry.Record.{
  CpuTimes, read_schedstat, Zone, package_temp, core_mhz,
}

abbrev zone_temp : List Zone
zone_temp =
    record { is_package = some false; temperature = some 90000 }
    ∷ record { is_package = some true; temperature = none }
    ∷ record { is_package = some true; temperature = some 55000 }
    ∷ []

package_temp-zone_temp : package_temp {F = ℕ} zone_temp ≡ some 55
unfolding package_temp
package_temp-zone_temp = refl

-- The core at 400 MHz is idle.
core_mhz_busy : core_mhz {F = ℕ} (some 3000000 ∷ none ∷ some 400000 ∷ []) ≡ 3000 ∷ []
unfolding core_mhz
core_mhz_busy = refl

abbrev times : (cpu ran waited : ℕ) → CpuTimes
times cpu ran waited = record { cpu = cpu; ran = ran; waited = waited }

read_schedstat_twice :
    read_schedstat (some (times 0 5 6) ∷ none ∷ some (times 1 7 8) ∷ some (times 0 9 9) ∷ []) []
    ≡ times 0 9 9 ∷ times 1 7 8 ∷ []
unfolding read_schedstat
read_schedstat_twice = refl
