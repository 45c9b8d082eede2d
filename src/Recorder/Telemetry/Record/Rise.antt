-- ===== src/Recorder/Telemetry/Record/Rise.antt =====
-- The rise of a table of counters between two snapshots.
use matching_machine.Prelude.{
  ℕ, ◌+◌, ◌≡◌, refl, sym, ap, ◌∙◌, Bool, true, List, [], ◌∷◌, ◌==◌, select, count, All, arith,
  if◌then◌else◌, Bool-cases, inl, inr,
}
use matching_machine.Prelude.Int.{sub_ℕ, ◌+ℤ◌}
use matching_machine.Recorder.Telemetry.Record.{count_in, rises, sum_ℤ, sum_devices}

-- The counts of the lines whose label is a number.
abbrev pub devices : (ℕ → Bool) → List (ℕ × ℕ) → List (ℕ × ℕ)
devices is_digit table = select (λ l. is_digit l.0) table

abbrev pub total : List (ℕ × ℕ) → ℕ
total [] = 0
total ((l, n) ∷ table) = n + total table

abbrev pub occurrences : ℕ → List (ℕ × ℕ) → ℕ
occurrences label table = count (λ l. l.0 == label) table

-- The sum over a table of what another holds under its labels.
abbrev matched : (after before : List (ℕ × ℕ)) → ℕ
matched [] before = 0
matched ((l, n) ∷ after) before = count_in before l + matched after before

sum-sub_ℕ : (n g A G : ℕ) → (sub_ℕ n g +ℤ sub_ℕ A G) ≡ sub_ℕ (n + A) (g + G)
unfolding ◌+ℤ◌
sum-sub_ℕ n g A G = ground arith

sum_devices-rises :
    (is_digit : ℕ → Bool) (after before : List (ℕ × ℕ))
    → sum_devices is_digit (rises after before)
      ≡ sub_ℕ (total (devices is_digit after)) (matched (devices is_digit after) before)
unfolding sum_devices rises sum_ℤ
sum_devices-rises is_digit [] before = refl
sum_devices-rises is_digit ((l, n) ∷ after) before = elim (Bool-cases (is_digit l)) [
  | inl e ↦ rw e (
      ap (λ s. sub_ℕ n (count_in before l) +ℤ s) (sum_devices-rises is_digit after before)
      ∙ sum-sub_ℕ n (count_in before l) (total (devices is_digit after))
          (matched (devices is_digit after) before))
  | inr e ↦ rw e (sum_devices-rises is_digit after before)
]

count_in-absent :
    (table : List (ℕ × ℕ)) (label : ℕ) → occurrences label table ≡ 0 → count_in table label ≡ 0
unfolding count_in
count_in-absent [] label h = refl
count_in-absent ((l, n) ∷ table) label h = ground (arith, count_in-absent table label)

-- `n` for each line with a label.
abbrev copies : (label n : ℕ) → List (ℕ × ℕ) → ℕ
copies label n [] = 0
copies label n ((l, m) ∷ table) =
    if l == label then n + copies label n table else copies label n table

copies-none :
    (label n : ℕ) (table : List (ℕ × ℕ)) → occurrences label table ≡ 0 → copies label n table ≡ 0
copies-none label n [] h = refl
copies-none label n ((l, m) ∷ table) h = ground (arith, copies-none label n table)

copies-once :
    (label n : ℕ) (table : List (ℕ × ℕ)) → occurrences label table ≡ 1 → copies label n table ≡ n
copies-once label n [] h = absurd (omega arith)
copies-once label n ((l, m) ∷ table) h =
    ground (arith, copies-once label n table, copies-none label n table)

matched-cons :
    (after before : List (ℕ × ℕ)) (label n : ℕ)
    → count_in before label ≡ 0
    → matched after ((label, n) ∷ before) ≡ copies label n after + matched after before
unfolding count_in
matched-cons [] before label n h = refl
matched-cons ((l, m) ∷ after) before label n h = elim (Bool-cases (label == l)) [
  | inl e ↦
      let q : label ≡ l = ground arith in
      let there : count_in before l ≡ 0 = rw q at h in
      ground (arith, matched-cons after before label n h)
  | inr e ↦ ground (arith, matched-cons after before label n h)
]

matched-nil : (after : List (ℕ × ℕ)) → matched after [] ≡ 0
unfolding count_in
matched-nil [] = refl
matched-nil ((l, n) ∷ after) = omega (arith, matched-nil after)

-- No label has two lines.
abbrev pub AreDistinct : List (ℕ × ℕ) → Type 0
AreDistinct [] = Unit
AreDistinct ((l, n) ∷ table) = (occurrences l table ≡ 0) × AreDistinct table

matched-total :
    (after before : List (ℕ × ℕ))
    → AreDistinct before
    → All (λ l. occurrences l.0 after ≡ 1) before
    → matched after before ≡ total before
matched-total after [] d h = matched-nil after
matched-total after ((l, n) ∷ before) d h = omega (
  arith,
  matched-cons after before l n (count_in-absent before l d.0),
  copies-once l n after h.0,
  matched-total after before d.1 h.1,
)

count_in-devices :
    (is_digit : ℕ → Bool) (label : ℕ) (table : List (ℕ × ℕ))
    → is_digit label ≡ true
    → count_in (devices is_digit table) label ≡ count_in table label
unfolding count_in
count_in-devices is_digit label [] e = refl
count_in-devices is_digit label ((l, n) ∷ table) e = elim (Bool-cases (l == label)) [
  | inl f ↦
      let same : l ≡ label = ground arith in
      rw (same, e) (ground (arith, count_in-devices is_digit label table e))
  | inr f ↦ ground (arith, count_in-devices is_digit label table e)
]

matched-devices :
    (is_digit : ℕ → Bool) (after before : List (ℕ × ℕ))
    → matched (devices is_digit after) (devices is_digit before)
      ≡ matched (devices is_digit after) before
unfolding count_in
matched-devices is_digit [] before = refl
matched-devices is_digit ((l, n) ∷ after) before = elim (Bool-cases (is_digit l)) [
  | inl e ↦
      rw e
        (omega (arith, matched-devices is_digit after before, count_in-devices is_digit l before e))
  | inr e ↦ rw e (matched-devices is_digit after before)
]

-- If no label of the tables has two lines and each line of a device that was there before is still there,
-- the rises of the devices' lines sum up to the rise of their total, also below zero. Lines that are new
-- count from zero.
pub sum_devices-rise :
    (is_digit : ℕ → Bool) (after before : List (ℕ × ℕ))
    → AreDistinct (devices is_digit before)
    → All (λ l. occurrences l.0 (devices is_digit after) ≡ 1) (devices is_digit before)
    → sum_devices is_digit (rises after before)
      ≡ sub_ℕ (total (devices is_digit after)) (total (devices is_digit before))
sum_devices-rise is_digit after before d h =
    sum_devices-rises is_digit after before
    ∙ ap (sub_ℕ (total (devices is_digit after))) (
        sym (matched-devices is_digit after before)
        ∙ matched-total (devices is_digit after) (devices is_digit before) d h)
