-- ===== src/Recorder/Telemetry/Snapshot.antt =====
-- `snapshot` of scripts/record/bench_record.py, and the record that `launch` makes of the snapshots
-- before and after a launch. Labels and CPUs are numbers, and the measured CPUs ascend.
pub mod Covered
mod Tests
use matching_machine.Prelude.{
  ℕ, ◌+◌, Bool, Option, none, some, List, [], ◌∷◌, ◌==◌, map, length, if◌then◌else◌,
}
use matching_machine.Prelude.Int.{ℤ, pos, sub_ℕ, ◌+ℤ◌}
use matching_machine.Recorder.Telemetry.{Field, Counters, read_cpu_table, read_throttle}
use matching_machine.Recorder.Telemetry.Record.{
  Rounding, CpuTimes, Zone, read_schedstat, times_of, package_temp, rises, rise_of, sum_devices,
}
use matching_machine.Report.Extremes.{min_from, max_of}
use matching_machine.Report.Floats.{Order, Arith, eqv}

-- What the files and the clocks hold.
pub record Readings (F : Type 0) : Type 0 where
  pub schedstat : List (Option CpuTimes)
  pub throttles : List (Option Counters)
  pub zones : List Zone
  pub interrupt_cpus : List ℕ
  pub interrupts : List (ℕ × List Field)
  pub softirq_cpus : List ℕ
  pub softirqs : List (ℕ × List Field)
  pub boottime : F
  pub monotonic : F
  pub load : F

pub record Snapshot (F : Type 0) : Type 0 where
  pub throttle : ℕ × ℕ
  pub temp : Option F
  pub irq : List (ℕ × ℕ)
  pub softirq : List (ℕ × ℕ)
  pub ran_ns : List (ℕ × ℕ)
  pub waited_ns : List (ℕ × ℕ)
  pub suspended : F
  pub load1 : F

-- What the kernel says of the process: its CPU time and its counters.
pub record Usage (F : Type 0) : Type 0 where
  pub user : F
  pub system : F
  pub voluntary : ℕ
  pub involuntary : ℕ
  pub minor : ℕ
  pub major : ℕ
  pub max_rss : ℕ

pub record Telemetry (F : Type 0) : Type 0 where
  pub wall_s : F
  pub cpu_s : F
  pub cpu_per_wall : F
  pub usage : Usage F
  pub throttle_core : ℤ
  pub throttle_package : ℤ
  pub suspended_s : F
  pub temp_start_c : Option F
  pub temp_end_c : Option F
  pub mhz_min : Option F
  pub mhz_max : Option F
  pub mhz_samples : ℕ
  pub device_irqs : ℤ
  pub irqs : List (ℕ × ℤ)
  pub softirqs : List (ℕ × ℤ)
  pub ran_s : List (ℕ × F)
  pub waited_ms : F
  pub foreign_ms : F
  pub load1 : F

-- `{c: sched[c][…] for c in measure}`; `none` is the `KeyError` of a CPU without a line.
unfoldable pub columns : (CpuTimes → ℕ) → List CpuTimes → List ℕ → Option (List (ℕ × ℕ))
unfolding times_of
columns field sched [] = some []
columns field sched (c ∷ measure) =
    let rest = columns field sched measure in
    elim (times_of sched c) [
      | none ↦ none
      | some t ↦ elim rest [ none ↦ none | some table ↦ some ((c, field t) ∷ table) ]
    ]

-- `table[label]`; `none` is a `KeyError`.
unfoldable pub lookup : {A : Type 0} → List (ℕ × A) → ℕ → Option A
lookup [] label = none
lookup ((l, x) ∷ table) label = if l == label then some x else lookup table label

abbrev pub difference : Option ℕ → Option ℕ → Option ℤ
difference (some n) (some m) = some (sub_ℕ n m)
difference _ _ = none

-- `sum(after["waited_ns"][c] - before["waited_ns"][c] for c in cores)`
unfoldable pub waited_sum : (after before : List (ℕ × ℕ)) → List ℕ → Option ℤ
unfolding lookup
waited_sum after before [] = some (pos 0)
waited_sum after before (c ∷ cores) =
    let rest = waited_sum after before cores in
    elim (difference (lookup after c) (lookup before c)) [
      | none ↦ none
      | some n ↦ elim rest [ none ↦ none | some m ↦ some (n +ℤ m) ]
    ]

module _ {F : Type 0} ⦃o : Order F⦄ ⦃a : Arith F⦄ where
  unfoldable pub snapshot_with :
      Readings F → List ℕ → (ran waited : Option (List (ℕ × ℕ))) → Option (Snapshot F)
  unfolding read_throttle package_temp read_cpu_table
  snapshot_with r measure (some ran) (some waited) = some (record {
    throttle = read_throttle r.throttles;
    temp = package_temp r.zones;
    irq = read_cpu_table measure r.interrupt_cpus r.interrupts;
    softirq = read_cpu_table measure r.softirq_cpus r.softirqs;
    ran_ns = ran;
    waited_ns = waited;
    suspended = a.sub r.boottime r.monotonic;
    load1 = r.load;
  })
  snapshot_with r measure _ _ = none

  unfoldable pub snapshot : Readings F → List ℕ → Option (Snapshot F)
  unfolding snapshot_with columns read_schedstat
  snapshot r measure =
      let sched = read_schedstat r.schedstat [] in
      snapshot_with r measure (columns (λ t. t.ran) sched measure)
        (columns (λ t. t.waited) sched measure)

  abbrev pub min_of : List F → Option F
  min_of [] = none
  min_of (v ∷ values) = some (min_from v values)

  -- `sum`, from a total on, where each summand may have failed
  unfoldable pub sum_some : {A : Type 0} → (A → Option F) → List A → F → Option F
  sum_some f [] total = some total
  sum_some f (x ∷ xs) total = elim (f x) [ none ↦ none | some v ↦ sum_some f xs (a.add total v) ]

  module _ (rounding : Rounding F) where
    unfoldable pub billion : F
    billion = a.of_ℕ 1000000000

    -- `(after["ran_ns"][c] - before["ran_ns"][c]) / 1e9`
    unfoldable pub ran_of : (after before : Snapshot F) → ℕ → Option F
    unfolding lookup billion
    ran_of after before c = elim (difference (lookup after.ran_ns c) (lookup before.ran_ns c)) [
      | none ↦ none
      | some n ↦ some (a.div (rounding.of_ℤ n) billion)
    ]

    unfoldable pub ran_table : (after before : Snapshot F) → List ℕ → Option (List (ℕ × F))
    unfolding ran_of
    ran_table after before [] = some []
    ran_table after before (c ∷ measure) =
        let rest = ran_table after before measure in
        elim (ran_of after before c) [
          | none ↦ none
          | some v ↦ elim rest [ none ↦ none | some table ↦ some ((c, rounding.round v 4) ∷ table) ]
        ]

    -- The record of three sums: of the measured CPUs, and over the launch's own ones. Rounding gives no
    -- `-0.0`, for which the code has `or 0.0`. `none` is a `KeyError` in a sum, or the
    -- `ZeroDivisionError` of a launch that took no time.
    unfoldable pub record_with :
        (is_digit : ℕ → Bool) (irq_kinds softirq_kinds : List ℕ)
        → (before after : Snapshot F) → (wall : F) → Usage F
        → (mhz : List F) → (ran : Option (List (ℕ × F))) → (ran_sum : Option F)
        → (waited : Option ℤ) → Option (Telemetry F)
    unfolding rises rise_of sum_devices
    record_with is_digit irq_kinds softirq_kinds before after wall usage mhz (some ran)
          (some ran_sum) (some waited) =
        let own = a.add usage.user usage.system in
        let irq = rises after.irq before.irq in
        let soft = rises after.softirq before.softirq in
        if eqv wall (a.of_ℕ 0)
        then none
        else some (record {
          wall_s = rounding.round wall 4;
          cpu_s = rounding.round own 4;
          cpu_per_wall = rounding.round (a.div own wall) 4;
          usage = usage;
          throttle_core = sub_ℕ after.throttle.0 before.throttle.0;
          throttle_package = sub_ℕ after.throttle.1 before.throttle.1;
          suspended_s = rounding.round (a.sub after.suspended before.suspended) 3;
          temp_start_c = before.temp;
          temp_end_c = after.temp;
          mhz_min = min_of mhz;
          mhz_max = max_of mhz;
          mhz_samples = length mhz;
          device_irqs = sum_devices is_digit irq;
          irqs = map (λ k. (k, rise_of irq k)) irq_kinds;
          softirqs = map (λ k. (k, rise_of soft k)) softirq_kinds;
          ran_s = ran;
          waited_ms = rounding.round (a.div (rounding.of_ℤ waited) (a.of_ℕ 1000000)) 3;
          foreign_ms = rounding.round (a.mul (a.sub ran_sum own) (a.of_ℕ 1000)) 3;
          load1 = before.load1;
        })
    record_with is_digit irq_kinds softirq_kinds before after wall usage mhz _ _ _ = none

    unfoldable pub launch_record :
        (is_digit : ℕ → Bool) (irq_kinds softirq_kinds cores measure : List ℕ)
        → (before after : Snapshot F) → (wall : F) → Usage F
        → (mhz : List F) → Option (Telemetry F)
    unfolding record_with ran_table ran_of waited_sum sum_some
    launch_record is_digit irq_kinds softirq_kinds cores measure before after wall usage mhz =
        record_with is_digit irq_kinds softirq_kinds before after wall usage mhz
          (ran_table after before measure) (sum_some (ran_of after before) cores (a.of_ℕ 0))
          (waited_sum after.waited_ns before.waited_ns cores)
