-- ===== src/Report/Trend/Answers.antt =====
-- What the trend test answers.
use matching_machine.Prelude.{
  ℕ, zero, suc, ◌+◌, ◌≤◌, ◌≡◌, ◌≢◌, refl, sym, ap, ◌∙◌, Bool, true, false, ◌||◌, List, [], ◌∷◌,
  ◌++◌, count, count-none, count-le_length, All-of, length, length-append, arith, if◌then◌else◌,
  ltb, Bool-cases, inl, inr,
}
use matching_machine.Report.Floats.{Order, Arith, nat_order}
use matching_machine.Report.Permutation.{Random}
use matching_machine.Report.Trend.{
  Number, nan, number, Correlation, is_constant, range_from, reaches, p_number, rank_values,
  spearman, abs_of, null_from, trend_test,
}

length-range_from : (i n : ℕ) → length (range_from i n) ≡ n
length-range_from i zero = refl
length-range_from i (suc n) = ap suc (length-range_from (suc i) n)

-- Three indices are not all equal.
short_or_constant :
    (n : ℕ) → (ltb (length (range_from 0 n)) 3 || is_constant (range_from 0 n)) ≡ ltb n 3
short_or_constant zero = refl
short_or_constant (suc zero) = refl
short_or_constant (suc (suc zero)) = refl
short_or_constant (suc (suc (suc n))) = let l = length-range_from 3 n in ground arith

nan_is_number : {F : Type 0} → {v : F} → nan ≢ number v
nan_is_number e = cc

number_eq : {F : Type 0} → {v w : F} → number v ≡ number w → v ≡ w
number_eq e = cc

or_assoc : (b c d : Bool) → (b || (c || d)) ≡ ((b || c) || d)
or_assoc b c d = ground arith

module _ {F : Type 0} ⦃o : Order F⦄ ⦃a : Arith F⦄ (st : Correlation F) {S : Type 0}
    (random : Random S F) where
  length-null_from :
      (order : List ℕ) (n : ℕ) (rng : S) (shuffled : List F) (null : List (Number F))
      → length (null_from st random order n rng shuffled null).1 ≡ length null + n
  unfolding null_from
  length-null_from order zero rng shuffled null = omega arith
  length-null_from order (suc n) rng shuffled null =
      let (rng', shuffled') = random.shuffle rng shuffled in
      let v = abs_of st (spearman st order shuffled') in
      omega (
        arith,
        length-null_from order n rng' shuffled' (null ++ v ∷ []),
        length-append null (v ∷ []),
      )

  -- Too few values for a trend, or no two that differ.
  abbrev pub no_trend : List F → Bool
  no_trend values = ltb (length values) 3 || is_constant values

  spearman-order :
      (values : List F)
      → spearman st (range_from 0 (length values)) values ≡ (
          if no_trend values
          then nan
          else number
              (st.correlation (rank_values (range_from 0 (length values))) (rank_values values)))
  unfolding spearman
  spearman-order values =
      ap
        (λ b.
          if b
          then nan
          else number
              (st.correlation (rank_values (range_from 0 (length values))) (rank_values values)))
        (or_assoc _ _ (is_constant values)
          ∙ ap (λ b. b || is_constant values) (short_or_constant (length values)))

  count_nan : (null : List (Number F)) → count (λ v. reaches nan v) null ≡ 0
  count_nan null = count-none (λ v. reaches nan v) null (All-of null (λ v. refl))

  -- Without a trend the coefficient is `nan` and p is the smallest that n shuffles can give. Otherwise
  -- the coefficient is the correlation of the ranks with the order.
  abbrev pub IsAnswer : List F → ℕ → Number F × F → Type 0
  IsAnswer values n (nan, p) = (no_trend values ≡ true) × (p ≡ a.div (a.of_ℕ 1) (a.of_ℕ (n + 1)))
  IsAnswer values n (number rho, p) =
      (no_trend values ≡ false)
      × (rho ≡ st.correlation (rank_values (range_from 0 (length values))) (rank_values values))
      × ((k : ℕ) × (1 ≤ k) × (k ≤ n + 1) × (p ≡ a.div (a.of_ℕ k) (a.of_ℕ (n + 1))))

  answered :
      (values : List F) (n : ℕ) (null : List (Number F)) (observed : Number F)
      → length null ≡ n
      → observed ≡ (
          if no_trend values
          then nan
          else number
              (st.correlation (rank_values (range_from 0 (length values))) (rank_values values)))
      → IsAnswer values n (observed, p_number null (abs_of st observed))
  unfolding p_number
  answered values n null nan l e =
      let rho0 = st.correlation (rank_values (range_from 0 (length values))) (rank_values values) in
      elim (Bool-cases (no_trend values)) [
        | inl q ↦ (
          q,
          ap (λ m. a.div (a.of_ℕ (m + 1)) (a.of_ℕ (length null + 1))) (count_nan null)
              ∙ ap (λ m. a.div (a.of_ℕ 1) (a.of_ℕ (m + 1))) l,
        )
        | inr q ↦ absurd (nan_is_number (e ∙ ap (λ b. if b then nan else number rho0) q))
      ]
  answered values n null (number rho) l e =
      let rho0 = st.correlation (rank_values (range_from 0 (length values))) (rank_values values) in
      elim (Bool-cases (no_trend values)) [
        | inl q ↦ absurd (nan_is_number (sym (e ∙ ap (λ b. if b then nan else number rho0) q)))
        | inr q ↦
            let few = count-le_length (λ v. reaches (abs_of st (number rho)) v) null in
            (
              q,
              number_eq (e ∙ ap (λ b. if b then nan else number rho0) q),
              (
                count (λ v. reaches (abs_of st (number rho)) v) null + 1,
                omega arith,
                omega arith,
                ap
                    (λ m.
                      a.div (a.of_ℕ (count (λ v. reaches (abs_of st (number rho)) v) null + 1))
                        (a.of_ℕ (m + 1)))
                    l,
              ),
            )
      ]

  -- With fewer than three values, or values that are all equal, the coefficient is `nan` and p is
  -- 1 / (n + 1), the smallest that n shuffles can give. Otherwise the coefficient is the correlation of
  -- the ranks of the values with those of their positions, and p is k / (n + 1) for a k from 1 to n + 1.
  pub trend_test-IsAnswer :
      (values : List F) (n : ℕ) (rng : S)
      → let t = trend_test st random values n rng in IsAnswer values n (t.1, t.2)
  unfolding trend_test
  trend_test-IsAnswer values n rng =
      answered values n _ _
        (omega (arith, length-null_from (range_from 0 (length values)) n rng values []))
        (spearman-order values)
