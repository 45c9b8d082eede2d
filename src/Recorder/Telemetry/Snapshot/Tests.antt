-- ===== src/Recorder/Telemetry/Snapshot/Tests.antt =====
-- The record of two snapshots, and the theorem on it.
use matching_machine.Prelude.{ℕ, ◌≡◌, refl, Bool, some, [], ◌∷◌, ltb}
use matching_machine.Prelude.Int.{pos, pos_part, sub_ℕ, ◌+ℤ◌}
use matching_machine.Report.Floats.{nat_order, nat_arith}
use matching_machine.Recorder.Telemetry.Record.{Rounding}
use matching_machine.Recorder.Telemetry.Record.Rise.{devices, total}
use matching_machine.Recorder.Telemetry.Snapshot.{Snapshot, Usage, Telemetry, lookup, launch_record}
use matching_machine.Recorder.Telemetry.Snapshot.Covered.{
  Covers, AreWithin, AreKept, launch_record-rise,
}

abbrev rounding : Rounding ℕ
rounding = record { of_ℤ = pos_part; round = λ x digits. x }

-- Labels below 100 are the numbered lines of devices.
abbrev is_digit : ℕ → Bool
is_digit label = ltb label 100

abbrev before : Snapshot ℕ
before = record {
  throttle = (3, 1);
  temp = some 50;
  irq = (8, 20) ∷ (200, 5) ∷ (9, 30) ∷ [];
  softirq = (300, 7) ∷ [];
  ran_ns = (2, 1000000000) ∷ (3, 0) ∷ [];
  waited_ns = (2, 4000000) ∷ (3, 0) ∷ [];
  suspended = 6;
  load1 = 1;
}

-- Line 10 is new.
abbrev after : Snapshot ℕ
after = record {
  throttle = (5, 1);
  temp = some 60;
  irq = (8, 22) ∷ (200, 9) ∷ (9, 33) ∷ (10, 4) ∷ [];
  softirq = (300, 10) ∷ [];
  ran_ns = (2, 9000000000) ∷ (3, 1000000000) ∷ [];
  waited_ns = (2, 9000000) ∷ (3, 2000000) ∷ [];
  suspended = 6;
  load1 = 2;
}

abbrev usage : Usage ℕ
usage = record {
  user = 4;
  system = 2;
  voluntary = 11;
  involuntary = 12;
  minor = 13;
  major = 14;
  max_rss = 15;
}

launch_record-two :
    launch_record rounding is_digit
      (200 ∷ [])
      (300 ∷ 301 ∷ [])
      (2 ∷ [])
      (2 ∷ 3 ∷ [])
      before
      after
      10
      usage
      (3000 ∷ 2900 ∷ [])
    ≡ some (record {
      wall_s = 10;
      cpu_s = 6;
      cpu_per_wall = 0;
      usage = usage;
      throttle_core = pos 2;
      throttle_package = pos 0;
      suspended_s = 0;
      temp_start_c = some 50;
      temp_end_c = some 60;
      mhz_min = some 2900;
      mhz_max = some 3000;
      mhz_samples = 2;
      device_irqs = pos 9;
      irqs = (200, pos 4) ∷ [];
      softirqs = (300, pos 3) ∷ (301, pos 0) ∷ [];
      ran_s = (2, 8) ∷ (3, 1) ∷ [];
      waited_ms = 5;
      foreign_ms = 2000;
      load1 = 1;
    })
unfolding launch_record ◌+ℤ◌
launch_record-two = refl

before-Covers : Covers (2 ∷ 3 ∷ []) before
unfolding lookup
before-Covers = (((1000000000, refl), ((0, refl), tt)), ((4000000, refl), ((0, refl), tt)))

after-Covers : Covers (2 ∷ 3 ∷ []) after
unfolding lookup
after-Covers =
    (((9000000000, refl), ((1000000000, refl), tt)), ((9000000, refl), ((2000000, refl), tt)))

one-AreWithin : AreWithin (2 ∷ 3 ∷ []) (2 ∷ [])
one-AreWithin = (refl, tt)

lines-AreKept : AreKept rounding is_digit before after
lines-AreKept = ((refl, (refl, tt)), (refl, (refl, tt)))

launch_record-rise_example :
    (t : Telemetry ℕ) × (launch_record rounding is_digit
        (200 ∷ [])
        (300 ∷ 301 ∷ [])
        (2 ∷ [])
        (2 ∷ 3 ∷ [])
        before
        after
        10
        usage
        (3000 ∷ 2900 ∷ [])
      ≡ some t)
    × (t.device_irqs
        ≡ sub_ℕ (total (devices is_digit after.irq)) (total (devices is_digit before.irq)))
launch_record-rise_example =
    launch_record-rise rounding is_digit (200 ∷ []) (300 ∷ 301 ∷ []) (2 ∷ []) (2 ∷ 3 ∷ []) before
      after 10 usage (3000 ∷ 2900 ∷ []) refl before-Covers after-Covers one-AreWithin lines-AreKept
