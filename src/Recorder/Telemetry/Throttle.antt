-- ===== src/Recorder/Telemetry/Throttle.antt =====
-- The throttle events of a machine.
use matching_machine.Prelude.{
  ℕ, ◌+◌, ◌≡◌, refl, Option, none, some, List, [], ◌∷◌, arith, if◌then◌else◌, contains, All, ap,
}
use matching_machine.Recorder.Telemetry.{
  Counters, Throttles, add_counters, read_counters, or_zero, nothing_read, read_throttle,
}

-- The cores of the directories that can be read, each once, but for those seen.
abbrev cores_in : List (Option Counters) → List ℕ → List ℕ
cores_in [] seen = []
cores_in (none ∷ dirs) seen = cores_in dirs seen
cores_in (some c ∷ dirs) seen =
    if contains seen c.core_id
    then cores_in dirs seen
    else c.core_id ∷ cores_in dirs (c.core_id ∷ seen)

abbrev sum_over : (ℕ → ℕ) → List ℕ → ℕ
sum_over f [] = 0
sum_over f (n ∷ ns) = f n + sum_over f ns

module _ (per_core : ℕ → ℕ) (events : ℕ) where
  -- What the kernel reports: the same count at each sibling of a core, and the same count of the
  -- package at each CPU.
  abbrev Reports : Option Counters → Type 0
  Reports none = Unit
  Reports (some c) = (c.core_count ≡ per_core c.core_id) × (c.package_count ≡ events)

  read_counters-core :
      (dirs : List (Option Counters)) (t : Throttles)
      → All Reports dirs
      → (read_counters dirs t).core ≡ t.core + sum_over per_core (cores_in dirs t.seen)
  unfolding read_counters add_counters
  read_counters-core [] t h = omega arith
  read_counters-core (none ∷ dirs) t h = read_counters-core dirs t h.1
  read_counters-core (some c ∷ dirs) t h =
      ground (arith, read_counters-core dirs (add_counters (some c) t) h.1, h.0.0)

  -- Once a directory was read, the package's events are known.
  abbrev package_of : List (Option Counters) → ℕ
  package_of [] = 0
  package_of (none ∷ dirs) = package_of dirs
  package_of (some c ∷ dirs) = events

  read_counters-package :
      (dirs : List (Option Counters)) (t : Throttles) (n : ℕ)
      → t.package_total ≡ some n
      → (read_counters dirs t).package_total ≡ some n
  unfolding read_counters add_counters
  read_counters-package [] t n h = h
  read_counters-package (none ∷ dirs) t n h = read_counters-package dirs t n h
  read_counters-package (some c ∷ dirs) t n h = read_counters-package dirs _ n (rw h refl)

  first_package :
      (dirs : List (Option Counters)) (t : Throttles)
      → All Reports dirs
      → t.package_total ≡ none
      → or_zero (read_counters dirs t).package_total ≡ package_of dirs
  unfolding read_counters add_counters
  first_package [] t h e = ap or_zero e
  first_package (none ∷ dirs) t h e = first_package dirs t h.1 e
  first_package (some c ∷ dirs) t h e =
      ap or_zero (read_counters-package dirs _ events (rw (e, h.0.1) refl))

  -- If all siblings of a core report the same count and all CPUs the same count of the package,
  -- then each core that can be read is counted once, and the package once if any CPU can be read.
  read_throttle-sum :
      (dirs : List (Option Counters))
      → All Reports dirs
      → ((read_throttle dirs).0 ≡ sum_over per_core (cores_in dirs []))
        × ((read_throttle dirs).1 ≡ package_of dirs)
  unfolding read_throttle
  read_throttle-sum dirs h = (
    omega (arith, read_counters-core dirs nothing_read h),
    first_package dirs nothing_read h refl,
  )
