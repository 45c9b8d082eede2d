-- ===== src/Report/Extremes/Laws.antt =====
-- The least and the largest value, and what lies on each side of a median.
use matching_machine.Prelude.{
  ◌≤◌, ◌≡◌, ◌≢◌, Bool, true, false, List, [], ◌∷◌, count, All, arith, if◌then◌else◌, length_pos,
  Bool-cases, inl, inr,
}
use matching_machine.Report.Floats.{Order, le, lt, le_refl}
use matching_machine.Report.Median.Laws.{Halves}
use matching_machine.Report.Extremes.{min_from, max_from}

module _ {F : Type 0} ⦃o : Order F⦄ where
  lt_le : (x y : F) → lt x y ≡ true → le x y ≡ true
  lt_le x y h = ground (arith, o.le_total x y)

  not_lt : (x y : F) → lt x y ≡ false → le y x ≡ true
  not_lt x y h = ground arith

  -- The smaller of two is below both.
  smaller :
      (m v : F) → (le (if lt v m then v else m) m ≡ true) × (le (if lt v m then v else m) v ≡ true)
  smaller m v = elim (Bool-cases (lt v m)) [
    | inl e ↦ rw e (lt_le v m e, le_refl v)
    | inr e ↦ rw e (le_refl m, not_lt v m e)
  ]

  larger :
      (m v : F) → (le m (if lt m v then v else m) ≡ true) × (le v (if lt m v then v else m) ≡ true)
  larger m v = elim (Bool-cases (lt m v)) [
    | inl e ↦ rw e (lt_le m v e, le_refl v)
    | inr e ↦ rw e (le_refl m, not_lt m v e)
  ]

  min_from-le : (m : F) (values : List F) → All (λ v. le (min_from m values) v ≡ true) (m ∷ values)
  min_from-le m [] = (le_refl m, tt)
  min_from-le m (v ∷ values) =
      let m' = if lt v m then v else m in
      let least = min_from m' values in
      let (below, rest) = min_from-le m' values in
      let (is_m, is_v) = smaller m v in
      (o.le_trans least m' m below is_m, (o.le_trans least m' v below is_v, rest))

  le-max_from : (m : F) (values : List F) → All (λ v. le v (max_from m values) ≡ true) (m ∷ values)
  le-max_from m [] = (le_refl m, tt)
  le-max_from m (v ∷ values) =
      let m' = if lt m v then v else m in
      let most = max_from m' values in
      let (above, rest) = le-max_from m' values in
      let (is_m, is_v) = larger m v in
      (o.le_trans m m' most is_m above, (o.le_trans v m' most is_v above, rest))

  -- Where some element passes a test that all the others imply, it does so with what all have.
  some_of :
      (p : F → Bool) (Q : F → Type 0) (values : List F)
      → 1 ≤ count p values
      → All Q values
      → (v : F) × (p v ≡ true) × Q v
  some_of p Q [] h q = absurd (omega arith)
  some_of p Q (v ∷ values) h q = elim (Bool-cases (p v)) [
    | inl e ↦ (v, e, q.0)
    | inr e ↦ some_of p Q values (rw e at h) q.1
  ]

  -- Half of the values are at least the median, so what all have, one of those has.
  pub Halves-above :
      (Q : F → Type 0) (values : List F) (m : F)
      → values ≢ []
      → Halves values m
      → All Q values
      → (v : F) × (le m v ≡ true) × Q v
  Halves-above Q values m ne h q =
      some_of (λ v. le m v) Q values (omega (arith, h.1, length_pos values ne)) q

  pub Halves-below :
      (Q : F → Type 0) (values : List F) (m : F)
      → values ≢ []
      → Halves values m
      → All Q values
      → (v : F) × (le v m ≡ true) × Q v
  Halves-below Q values m ne h q =
      some_of (λ v. le v m) Q values (omega (arith, h.0, length_pos values ne)) q

  -- A median lies between the least value and the largest.
  pub Halves-between :
      (first : F) (values : List F) (m : F)
      → Halves (first ∷ values) m
      → (le (min_from first values) m ≡ true) × (le m (max_from first values) ≡ true)
  Halves-between first values m h =
      let all = first ∷ values in
      let (v, v_below, least) = Halves-below _ all m (λ e. cc) h (min_from-le first values) in
      let (w, w_above, most) = Halves-above _ all m (λ e. cc) h (le-max_from first values) in
      (o.le_trans _ v m least v_below, o.le_trans m w _ w_above most)
