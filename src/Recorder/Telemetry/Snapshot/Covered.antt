-- ===== src/Recorder/Telemetry/Snapshot/Covered.antt =====
-- Two snapshots of the same CPUs give a record.
use matching_machine.Prelude.{
  ℕ, ◌≡◌, ◌∙◌, refl, sym, subst, Bool, true, false, if◌then◌else◌, Option, none, some, List, [],
  ◌∷◌, ◌==◌, All, All-map, contains, arith, Bool-cases, inl, inr,
}
use matching_machine.Prelude.Int.{ℤ, sub_ℕ, ◌+ℤ◌}
use matching_machine.Recorder.Telemetry.Record.{Rounding, CpuTimes, times_of, rises, sum_devices}
use matching_machine.Recorder.Telemetry.Record.Rise.{
  devices, total, occurrences, AreDistinct, sum_devices-rise,
}
use matching_machine.Recorder.Telemetry.Snapshot.{
  Readings, Snapshot, Usage, Telemetry, columns, lookup, waited_sum, snapshot_with, snapshot,
  sum_some, ran_of, billion, ran_table, record_with, launch_record,
}
use matching_machine.Report.Floats.{Order, Arith, eqv}

abbrev pub Has : List (ℕ × ℕ) → ℕ → Type 0
Has table c = (n : ℕ) × (lookup table c ≡ some n)

Has-cons : (l n : ℕ) (table : List (ℕ × ℕ)) (c : ℕ) → Has table c → Has ((l, n) ∷ table) c
unfolding lookup
Has-cons l n table c (m, e) = elim (Bool-cases (l == c)) [
  | inl q ↦ (n, rw q refl)
  | inr q ↦ (m, rw q e)
]

Has-first : (l n : ℕ) (table : List (ℕ × ℕ)) → Has ((l, n) ∷ table) l
unfolding lookup
Has-first l n table = (n, ground arith)

-- Where the columns of some CPUs are there, they have each.
abbrev HasAll : List ℕ → Option (List (ℕ × ℕ)) → Type 0
HasAll measure none = Unit
HasAll measure (some table) = All (Has table) measure

HasAll-with :
    (field : CpuTimes → ℕ) (c : ℕ) (measure : List ℕ) (t : Option CpuTimes)
    (rest : Option (List (ℕ × ℕ)))
    → HasAll measure rest
    → HasAll (c ∷ measure) (elim t [
      | none ↦ none
      | some u ↦ elim rest [ none ↦ none | some table ↦ some ((c, field u) ∷ table) ]
    ])
HasAll-with field c measure none rest h = tt
HasAll-with field c measure (some u) none h = tt
HasAll-with field c measure (some u) (some table) h =
    (Has-first c (field u) table, All-map measure (λ x. Has-cons c (field u) table x) h)

HasAll-columns :
    (field : CpuTimes → ℕ) (sched : List CpuTimes) (measure : List ℕ)
    → HasAll measure (columns field sched measure)
unfolding columns
HasAll-columns field sched [] = tt
HasAll-columns field sched (c ∷ measure) =
    HasAll-with field c measure (times_of sched c) (columns field sched measure)
      (HasAll-columns field sched measure)

All_contains : (P : ℕ → Type 0) (xs : List ℕ) (x : ℕ) → All P xs → contains xs x ≡ true → P x
All_contains P [] x h e = cc
All_contains P (y ∷ xs) x h e = elim (Bool-cases (x == y)) [
  | inl q ↦ let same : y ≡ x = ground arith in subst P same h.0
  | inr q ↦ All_contains P xs x h.1 (rw q at e)
]

sum_there :
    (after before : List (ℕ × ℕ)) (cores : List ℕ)
    → All (Has after) cores
    → All (Has before) cores
    → (n : ℤ) × (waited_sum after before cores ≡ some n)
unfolding waited_sum
sum_there after before [] h k = (_, refl)
sum_there after before (c ∷ cores) h k =
    let (n, e) = h.0 in
    let (m, f) = k.0 in
    let (s, g) = sum_there after before cores h.1 k.1 in
    (sub_ℕ n m +ℤ s, rw (e, f, g, waited_sum) refl)

module _ {F : Type 0} ⦃o : Order F⦄ ⦃a : Arith F⦄ where
  -- A snapshot has the times of each CPU.
  abbrev pub Covers : List ℕ → Snapshot F → Type 0
  Covers measure s = All (Has s.ran_ns) measure × All (Has s.waited_ns) measure

  abbrev pub IsSnapshot : List ℕ → Option (Snapshot F) → Type 0
  IsSnapshot measure none = Unit
  IsSnapshot measure (some s) = Covers measure s

  with_columns :
      (r : Readings F) (measure : List ℕ) (ran waited : Option (List (ℕ × ℕ)))
      → HasAll measure ran
      → HasAll measure waited
      → IsSnapshot measure (snapshot_with r measure ran waited)
  unfolding snapshot_with
  with_columns r measure none waited h k = tt
  with_columns r measure (some ran) none h k = tt
  with_columns r measure (some ran) (some waited) h k = (h, k)

  -- A snapshot that is taken has the times of each measured CPU.
  pub snapshot-IsSnapshot :
      (r : Readings F) (measure : List ℕ) → IsSnapshot measure (snapshot r measure)
  unfolding snapshot
  snapshot-IsSnapshot r measure =
      with_columns r measure _ _ (HasAll-columns (λ t. t.ran) _ measure)
        (HasAll-columns (λ t. t.waited) _ measure)

  module _ (rounding : Rounding F) (before after : Snapshot F) where
    ran_there :
        (c : ℕ)
        → Has after.ran_ns c
        → Has before.ran_ns c
        → (v : F) × (ran_of rounding after before c ≡ some v)
    unfolding ran_of billion
    ran_there c (n, e) (m, f) =
        (a.div (rounding.of_ℤ (sub_ℕ n m)) (a.of_ℕ 1000000000), rw (e, f, ran_of) refl)

    table_there :
        (measure : List ℕ)
        → All (Has after.ran_ns) measure
        → All (Has before.ran_ns) measure
        → (table : List (ℕ × F)) × (ran_table rounding after before measure ≡ some table)
    unfolding ran_table
    table_there [] h k = (_, refl)
    table_there (c ∷ measure) h k =
        let (v, e) = ran_there c h.0 k.0 in
        let (table, f) = table_there measure h.1 k.1 in
        ((c, rounding.round v 4) ∷ table, rw (e, f, ran_table) refl)

    ran_sum_there :
        (cores : List ℕ) (start : F)
        → All (Has after.ran_ns) cores
        → All (Has before.ran_ns) cores
        → (v : F) × (sum_some (ran_of rounding after before) cores start ≡ some v)
    unfolding sum_some
    ran_sum_there [] start h k = (start, refl)
    ran_sum_there (c ∷ cores) start h k =
        let (v, e) = ran_there c h.0 k.0 in
        let (w, f) = ran_sum_there cores (a.add start v) h.1 k.1 in
        (
          w,
          subst
              (λ r.
                elim r [
                  | none ↦ none
                  | some x ↦ sum_some (ran_of rounding after before) cores (a.add start x)
                ]
                ≡ some w)
              (sym e) f,
        )

given :
    {A : Type 0}
    → (b : Bool) (x : A) (P : A → Type 0) → b ≡ false
    → P x
    → (t : A) × ((if b then none else some x) ≡ some t) × P t
given true x P e h = cc
given false x P e h = (x, refl, h)

abbrev pub AreWithin : List ℕ → List ℕ → Type 0
AreWithin measure cores = All (λ c. contains measure c ≡ true) cores

module _ {F : Type 0} ⦃o : Order F⦄ ⦃a : Arith F⦄ (rounding : Rounding F)
    (is_digit : ℕ → Bool) where
  -- The lines of the devices that were there before are still there, once.
  abbrev pub AreKept : (before after : Snapshot F) → Type 0
  AreKept before after =
      AreDistinct (devices is_digit before.irq)
      × All (λ l. occurrences l.0 (devices is_digit after.irq) ≡ 1) (devices is_digit before.irq)

  recorded :
      (irq_kinds softirq_kinds : List ℕ) (before after : Snapshot F) (wall : F) (usage : Usage F)
      (mhz : List F) (table : Option (List (ℕ × F))) (ran : Option F) (waited : Option ℤ)
      (x : List (ℕ × F)) (y : F) (z : ℤ)
      → eqv wall (a.of_ℕ 0) ≡ false
      → table ≡ some x
      → ran ≡ some y
      → waited ≡ some z
      → (t : Telemetry F) × (record_with rounding is_digit irq_kinds softirq_kinds before after wall
            usage mhz table ran waited
          ≡ some t)
        × (t.device_irqs ≡ sum_devices is_digit (rises after.irq before.irq))
  unfolding record_with
  recorded irqs softs before after wall usage mhz none ran waited x y z took e f g = cc
  recorded irqs softs before after wall usage mhz (some table) none waited x y z took e f g = cc
  recorded irqs softs before after wall usage mhz (some table) (some ran) none x y z took e f g = cc
  recorded irqs softs before after wall usage mhz (some table) (some ran) (some waited) x y z took e
        f g =
      given (eqv wall (a.of_ℕ 0)) _
        (λ t. t.device_irqs ≡ sum_devices is_digit (rises after.irq before.irq)) took refl

  -- For two snapshots of the measured CPUs, among which are those of the launch, where no label of the
  -- first one's devices has two lines and each has one line in the second, a launch that took time has
  -- a record, and its device interrupts are the rise of the total over all devices.
  pub launch_record-rise :
      (irq_kinds softirq_kinds cores measure : List ℕ) (before after : Snapshot F) (wall : F)
      (usage : Usage F) (mhz : List F)
      → eqv wall (a.of_ℕ 0) ≡ false
      → Covers measure before
      → Covers measure after
      → AreWithin measure cores
      → AreKept before after
      → (t : Telemetry F) × (launch_record rounding is_digit irq_kinds softirq_kinds cores measure
            before after wall usage mhz
          ≡ some t)
        × (t.device_irqs
            ≡ sub_ℕ (total (devices is_digit after.irq)) (total (devices is_digit before.irq)))
  unfolding launch_record
  launch_record-rise irq_kinds softirq_kinds cores measure before after wall usage mhz took b c w
        kept =
      let in_cores = λ (table : List (ℕ × ℕ)) (h : All (Has table) measure).
        All-map cores (λ x. All_contains (Has table) measure x h) w in
      let (table, e) = table_there rounding before after measure c.0 b.0 in
      let (ran, f) =
        ran_sum_there rounding before after cores (a.of_ℕ 0) (in_cores after.ran_ns c.0)
          (in_cores before.ran_ns b.0) in
      let (waited, g) =
        sum_there after.waited_ns before.waited_ns cores (in_cores after.waited_ns c.1)
          (in_cores before.waited_ns b.1) in
      let (t, q, devices_rise) =
        recorded irq_kinds softirq_kinds before after wall usage mhz _ _ _ table ran waited took e f
          g in
      (t, q, devices_rise ∙ sum_devices-rise is_digit after.irq before.irq kept.0 kept.1)
