-- ===== src/Report/Median/Laws.antt =====
-- The median splits the values in halves.
use matching_machine.Prelude.{
  ℕ, zero, suc, ◌+◌, ◌-◌, ◌*◌, ◌/◌, ◌%◌, ◌≤◌, ◌≡◌, ◌≢◌, ◌∙◌, ap, inl, inr, true, false, some, List,
  [], ◌∷◌, arith, ◌==◌, length, get_elem?, get_elem?-some, length_pos, eq_nil_of_length, count,
  count_mono, count-All, All, All-get_elem?, Bool-cases,
}
use matching_machine.Report.Floats.{Order, Arith, le, le_refl}
use matching_machine.Report.Sort.{sorted, IsSorted, sorted-IsSorted, count-sorted, length-sorted}
use matching_machine.Report.Median.{mean_of, median}

module _ {F : Type 0} ⦃o : Order F⦄ where
  abbrev Ascending : List F → Type 0
  Ascending = IsSorted (λ v. v)

  -- Up to its position, the elements of an ascending list are at most an element, and from it on at least.
  count-at_most :
      (s : List F) (k : ℕ) (x : F)
      → Ascending s
      → get_elem? s k ≡ some x
      → k + 1 ≤ count (λ v. le v x) s
  count-at_most [] k x h e = cc
  count-at_most (y ∷ s) zero x h e = let q : y ≡ x = cc in ground (arith, le_refl x)
  count-at_most (y ∷ s) (suc k) x h e =
      ground (arith, count-at_most s k x h.1 e, All-get_elem? (λ z. le y z ≡ true) s k x h.0 e)

  count-at_least :
      (s : List F) (k : ℕ) (x : F)
      → Ascending s
      → get_elem? s k ≡ some x
      → length s ≤ count (λ v. le x v) s + k
  count-at_least [] k x h e = omega arith
  count-at_least (y ∷ s) zero x h e =
      let q : y ≡ x = cc in
      let above : All (λ z. le x z ≡ true) s = rw q at h.0 in
      ground (arith, le_refl x, count-All (λ v. le x v) s above)
  count-at_least (y ∷ s) (suc k) x h e = ground (arith, count-at_least s k x h.1 e)

  pub get_elem?-Ascending :
      (s : List F) (k : ℕ) (x y : F)
      → Ascending s
      → get_elem? s k ≡ some x
      → get_elem? s (suc k) ≡ some y
      → le x y ≡ true
  get_elem?-Ascending [] k x y h e f = cc
  get_elem?-Ascending (z ∷ s) zero x y h e f =
      let q : z ≡ x = cc in
      let above : All (λ w. le x w ≡ true) s = rw q at h.0 in
      All-get_elem? (λ w. le x w ≡ true) s 0 y above f
  get_elem?-Ascending (z ∷ s) (suc k) x y h e f = get_elem?-Ascending s k x y h.1 e f

  abbrev pub Halves : List F → F → Type 0
  Halves values m =
      (length values ≤ 2 * count (λ v. le v m) values)
      × (length values ≤ 2 * count (λ v. le m v) values)

module _ {F : Type 0} ⦃o : Order F⦄ ⦃a : Arith F⦄ where
  Halves-odd :
      (s : List F)
      → Ascending s
      → (length s % 2 == 1) ≡ true
      → (m : F) × (get_elem? s (length s / 2) ≡ some m) × Halves s m
  Halves-odd s h odd =
      let (m, e) = get_elem?-some s (length s / 2) (ground arith) in
      (
        m,
        e,
        ground (arith, count-at_most s (length s / 2) m h e, count-at_least s (length s / 2) m h e),
      )

  Halves-even :
      (s : List F)
      → Ascending s
      → s ≢ []
      → (length s % 2 == 1) ≡ false
      → (m : F) × (mean_of (get_elem? s (length s / 2 - 1)) (get_elem? s (length s / 2)) ≡ some m)
        × Halves s m
  unfolding mean_of
  Halves-even s h ne even =
      let k = length s / 2 in
      let some_elements = length_pos s ne in
      let twice : length s ≡ 2 * k = ground arith in
      let (x, ex) = get_elem?-some s (k - 1) (omega arith) in
      let (y, ey) = get_elem?-some s k (omega arith) in
      let next : suc (k - 1) ≡ k = omega arith in
      let ordered = get_elem?-Ascending s (k - 1) x y h ex (ap (get_elem? s) next ∙ ey) in
      let m = a.div (a.add x y) (a.of_ℕ 2) in
      (
        m,
        rw (ex, ey),
        (
          omega (
            arith,
            count-at_most s (k - 1) x h ex,
            count_mono (λ v. le v x) (λ v. le v m) s
                (λ v p. o.le_trans v x m p (a.mean_ge x y ordered)),
          ),
          omega (
            arith,
            count-at_least s k y h ey,
            count_mono (λ v. le y v) (λ v. le m v) s
                (λ v p. o.le_trans m y v (a.mean_le x y ordered) p),
          ),
        ),
      )

  -- The median of values, of which there is at least one, exists, and at least half of the values
  -- are at most it and at least half of them are at least it.
  pub median-Halves :
      (values : List F) → values ≢ [] → (m : F) × (median values ≡ some m) × Halves values m
  unfolding median
  median-Halves values ne =
      let s = sorted (λ v. v) values in
      let same = length-sorted (λ v. v) values in
      let full : s ≢ [] = λ e. ne (eq_nil_of_length values (omega (arith, ap length e))) in
      let back = λ (m : F) (h : Halves s m).
        let at_most = count-sorted (λ v. v) (λ v. le v m) values in
        let at_least = count-sorted (λ v. v) (λ v. le m v) values in
        let both : Halves values m = (omega arith, omega arith) in both in
      elim (Bool-cases (length s % 2 == 1)) [
        | inl odd ↦
            let (m, e, h) = Halves-odd s (sorted-IsSorted (λ v. v) values) odd in
            (m, rw odd e, back m h)
        | inr even ↦
            let (m, e, h) = Halves-even s (sorted-IsSorted (λ v. v) values) full even in
            (m, rw even e, back m h)
      ]
