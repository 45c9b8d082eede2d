-- ===== src/Report/Tiers/Gap.antt =====
-- Where the tiers are split, and when there are no two tiers.
use matching_machine.Prelude.{
  ℕ, suc, ◌+◌, ◌-◌, ◌≡◌, ◌≢◌, refl, sym, ap, ◌∙◌, Bool, true, false, if◌then◌else◌, Option, none,
  some, List, [], ◌∷◌, arith, get_elem?, map, Bool-cases, inl, inr, ◌⊎◌,
}
use matching_machine.Report.Floats.{Order, Arith, lt, eqv}
use matching_machine.Report.Sort.{sorted, IsSorted, sorted-IsSorted}
use matching_machine.Report.Median.Laws.{get_elem?-Ascending}
use matching_machine.Report.Tiers.{
  Real, between, find_split, split_of, around, threshold_at, has_no_log, threshold_of,
  tier_threshold,
}

true_ne_false : true ≢ false
true_ne_false e = cc

none_ne_some : (m : ℕ) → none ≢ some m
none_ne_some m e = cc

some_eq : (i k : ℕ) → some i ≡ some k → k ≡ i + 0
some_eq i k e = let same : i ≡ k = cc in omega (arith, same)

none_is_some : {F : Type 0} (v : F) → none ≢ some v
none_is_some v e = cc

module _ {F : Type 0} ⦃o : Order F⦄ ⦃a : Arith F⦄ (real : Real F) where
  -- No value differs from its neighbour.
  abbrev pub AreEqual : F → List F → Type 0
  AreEqual v [] = Unit
  AreEqual v (w ∷ logs) = (eqv w v ≡ true) × AreEqual w logs

  -- Behind position `j` the value changes.
  abbrev pub IsGap : List F → ℕ → Type 0
  IsGap logs j =
      (low : F) × (high : F) × (get_elem? logs j ≡ some low)
      × (get_elem? logs (suc j) ≡ some high)
      × (eqv high low ≡ false)

  abbrev Found : (i : ℕ) → F → List F → Option ℕ → Option ℕ → Type 0
  Found i v logs at none = (at ≡ none) × AreEqual v logs
  Found i v logs at (some k) = (at ≡ some k) ⊎ ((j : ℕ) × (k ≡ i + j) × IsGap (v ∷ logs) j)

  abbrev pub IsPositive : Type 0
  IsPositive =
      (total : F) (n i : ℕ) (left : F) → lt real.minus_one (between real total n i left) ≡ true

  Found-behind :
      (i : ℕ) (v w : F) (logs : List F) (at r : Option ℕ)
      → eqv w v ≡ true
      → Found (suc i) w logs at r
      → Found i v (w ∷ logs) at r
  Found-behind i v w logs at none e f = (f.0, (e, f.1))
  Found-behind i v w logs at (some k) e (inl q) = inl q
  Found-behind i v w logs at (some k) e (inr (j, q, gap)) = inr (suc j, omega (arith, q), gap)

  Found-kept :
      (i : ℕ) (v w : F) (logs : List F) (at r : Option ℕ) (m : ℕ)
      → at ≡ some m
      → Found (suc i) w logs at r
      → Found i v (w ∷ logs) at r
  Found-kept i v w logs at none m e f = absurd (none_ne_some m (sym f.0 ∙ e))
  Found-kept i v w logs at (some k) m e (inl q) = inl q
  Found-kept i v w logs at (some k) m e (inr (j, q, gap)) = inr (suc j, omega (arith, q), gap)

  Found-here :
      (i : ℕ) (v w : F) (logs : List F) (at r : Option ℕ)
      → eqv w v ≡ false
      → Found (suc i) w logs (some i) r
      → Found i v (w ∷ logs) at r
  Found-here i v w logs at none e f = absurd (none_ne_some i (sym f.0))
  Found-here i v w logs at (some k) e (inl q) = inr (0, some_eq i k q, (v, w, refl, refl, e))
  Found-here i v w logs at (some k) e (inr (j, q, gap)) = inr (suc j, omega (arith, q), gap)

  -- An index that is not better: there is one already.
  Found-worse :
      IsPositive
      → (total : F) (n i : ℕ) (v w : F) (logs : List F) (left best : F) (at r : Option ℕ)
      → (at ≡ none → best ≡ real.minus_one)
      → lt best (between real total n i left) ≡ false
      → Found (suc i) w logs at r
      → Found i v (w ∷ logs) at r
  Found-worse pos total n i v w logs left best (some m) r h e f =
      Found-kept i v w logs (some m) r m refl f
  Found-worse pos total n i v w logs left best none r h e f = absurd (
      true_ne_false (
        sym (pos total n i left) ∙ ap (λ b. lt b (between real total n i left)) (sym (h refl)) ∙ e))

  find_split-Found :
      IsPositive
      → (total : F) (n i : ℕ) (v : F) (logs : List F) (left best : F) (at : Option ℕ)
      → (at ≡ none → best ≡ real.minus_one)
      → Found i v logs at (find_split real total n i v logs left best at)
  unfolding find_split
  find_split-Found pos total n i v [] left best none h = (refl, tt)
  find_split-Found pos total n i v [] left best (some k) h = inl refl
  find_split-Found pos total n i v (w ∷ logs) left best at h =
      let left' = a.add left v in
      let b = between real total n i left' in
      let skipped = find_split-Found pos total n (suc i) w logs left' best at h in
      elim (Bool-cases (eqv w v)) [
        | inl e ↦ rw e (Found-behind i v w logs at _ e skipped)
        | inr e ↦ elim (Bool-cases (lt best b)) [
          | inl l ↦
              rw (e, l)
                (Found-here i v w logs at _ e (
                  find_split-Found pos total n (suc i) w logs left' b (some i)
                    (λ q. absurd (none_ne_some i (sym q)))))
          | inr l ↦ rw (e, l) (Found-worse pos total n i v w logs left' best at _ h l skipped)
        ]
      ]

  -- What the split of a list of logarithms is: no two tiers if no neighbours differ, else the index of
  -- the lowest slow one.
  abbrev pub Splits : List F → Option ℕ → Type 0
  Splits [] r = r ≡ none
  Splits (v ∷ logs) none = AreEqual v logs
  Splits (v ∷ logs) (some k) =
      (low : F) × (high : F) × (get_elem? (v ∷ logs) (k - 1) ≡ some low)
      × (get_elem? (v ∷ logs) k ≡ some high)
      × (lt low high ≡ true)
      × (k ≡ suc (k - 1))

  Splits-of_Found :
      (v : F) (logs : List F) (r : Option ℕ)
      → IsSorted (λ w. w) (v ∷ logs)
      → Found 1 v logs none r
      → Splits (v ∷ logs) r
  Splits-of_Found v logs none s f = f.1
  Splits-of_Found v logs (some k) s (inl q) = absurd (none_ne_some k q)
  Splits-of_Found v logs (some k) s (inr (j, q, (low, high, l, h, e))) =
      let ordered = get_elem?-Ascending (v ∷ logs) j low high s l h in
      let before : k - 1 ≡ j = omega (arith, q) in
      let at : k ≡ suc j = omega (arith, q) in
      (low, high, rw before l, rw at h, ground arith, omega (arith, q))

  split_of-Splits :
      IsPositive → (logs : List F) → IsSorted (λ w. w) logs → Splits logs (split_of real logs)
  unfolding split_of
  split_of-Splits pos [] s = refl
  split_of-Splits pos (v ∷ logs) s =
      Splits-of_Found v logs _ s
        (find_split-Found pos _ _ 1 v logs _ real.minus_one none (λ q. refl))

  -- The threshold and gap of a split, and that there is none without two tiers.
  abbrev pub AreTiers : List F → Option (F × F) → Type 0
  AreTiers logs none =
      (logs ≡ []) ⊎ ((v : F) × (rest : List F) × (logs ≡ v ∷ rest) × AreEqual v rest)
  AreTiers logs (some (threshold, gap)) =
      (k : ℕ) × (low : F) × (high : F) × (get_elem? logs k ≡ some low)
      × (get_elem? logs (suc k) ≡ some high)
      × (lt low high ≡ true)
      × (threshold ≡ real.sqrt (a.mul (real.exp low) (real.exp high)))
      × (gap ≡ a.div (real.exp high) (real.exp low))

  around-AreTiers :
      (logs : List F) (k : ℕ) (low high : F) (l h : Option F)
      → l ≡ some low
      → h ≡ some high
      → get_elem? logs k ≡ some low
      → get_elem? logs (suc k) ≡ some high
      → lt low high ≡ true
      → AreTiers logs (around real l h)
  unfolding around
  around-AreTiers logs k low high none h p q x y z = absurd (none_is_some low p)
  around-AreTiers logs k low high (some l) none p q x y z = absurd (none_is_some high q)
  around-AreTiers logs k low high (some l) (some h) p q x y z =
      let same_l : l ≡ low = cc in
      let same_h : h ≡ high = cc in
      (k, l, h, x ∙ sym p, y ∙ sym q, rw (same_l, same_h) z, refl, refl)

  threshold_at-AreTiers :
      (logs : List F) (r : Option ℕ) → Splits logs r → AreTiers logs (threshold_at real logs r)
  unfolding threshold_at
  threshold_at-AreTiers [] none s = inl refl
  threshold_at-AreTiers [] (some k) s = absurd (none_ne_some k (sym s))
  threshold_at-AreTiers (v ∷ logs) none s = inr (v, logs, refl, s)
  threshold_at-AreTiers (v ∷ logs) (some k) (low, high, l, h, z, next) =
      around-AreTiers (v ∷ logs) (k - 1) low high _ _ l h l
        (ap (get_elem? (v ∷ logs)) (sym next) ∙ h) z

  -- The error of a value without a logarithm, or the tiers.
  abbrev pub AreTiersOf : List F → Option (Option (F × F)) → Type 0
  AreTiersOf values none = has_no_log real values ≡ true
  AreTiersOf values (some t) =
      (has_no_log real values ≡ false) × AreTiers (sorted (λ v. v) (map real.log values)) t

  checked-AreTiersOf :
      (values : List F) (t : Option (F × F)) (without : Bool)
      → has_no_log real values ≡ without
      → AreTiers (sorted (λ v. v) (map real.log values)) t
      → AreTiersOf values (if without then none else some t)
  checked-AreTiersOf values t true e h = e
  checked-AreTiersOf values t false e h = (e, h)

  -- A value that is not positive, of which there is no logarithm, gives an error, and nothing else does.
  -- Where the variance between two groups is above -1.0, as a product of squares and shares is, other
  -- values are split between two neighbouring logarithms that differ: the threshold is the root of the
  -- product of the highest fast and the lowest slow value, and the gap their quotient. There is no
  -- split only if no two neighbouring logarithms differ.
  pub tier_threshold-AreTiers :
      IsPositive → (values : List F) → AreTiersOf values (tier_threshold real values)
  unfolding tier_threshold threshold_of
  tier_threshold-AreTiers pos values =
      let logs = sorted (λ v. v) (map real.log values) in
      checked-AreTiersOf values (threshold_at real logs (split_of real logs))
        (has_no_log real values) refl
        (threshold_at-AreTiers logs _
          (split_of-Splits pos logs (sorted-IsSorted (λ v. v) (map real.log values))))
