-- ===== src/Report/Permutation/Bounds.antt =====
-- The permutation test gives a p, and how large it is.
use matching_machine.Prelude.{
  ℕ, zero, suc, ◌+◌, ◌<◌, ◌≤◌, ◌≡◌, refl, some, List, [], ◌∷◌, ◌++◌, arith, length, length-append,
  All, count-le_length, ==_ne, sym, subst, ap, ◌∙◌,
}
use matching_machine.Report.Floats.{Order, Arith, le}
use matching_machine.Report.Permutation.{
  Random, at_least, p_value, statistic_from, statistic, append_some, shuffled, p_of, test_with,
  rank_sum_test,
}

module _ {F : Type 0} ⦃o : Order F⦄ ⦃a : Arith F⦄ where
  statistic_from-some :
      (r : List F) (sizes : List ℕ) (i : ℕ) (total : F)
      → All (λ size. 0 < size) sizes
      → (v : F) × (statistic_from r sizes i total ≡ some v)
  unfolding statistic_from
  statistic_from-some r [] i total h = (total, refl)
  statistic_from-some r (size ∷ sizes) i total h =
      rw (==_ne size 0 (omega arith)) (statistic_from-some r sizes _ _ h.1)

  statistic-some :
      (sizes : List ℕ) (r : List F)
      → All (λ size. 0 < size) sizes
      → (v : F) × (statistic sizes r ≡ some v)
  unfolding statistic
  statistic-some sizes r h = statistic_from-some r sizes _ _ h

  module _ {S : Type 0} (random : Random S F) where
    shuffled-some :
        (sizes : List ℕ) (n : ℕ) (rng : S) (r null : List F)
        → All (λ size. 0 < size) sizes
        → (all : List F) × ((shuffled random sizes n rng r (some null)).1 ≡ some all)
          × (length all ≡ length null + n)
    unfolding shuffled append_some
    shuffled-some sizes zero rng r null h = (null, refl, omega arith)
    shuffled-some sizes (suc n) rng r null h =
        let (rng', r') = random.shuffle rng r in
        let (v, e) = statistic-some sizes r' h in
        let (all, q, l) = shuffled-some sizes n rng' r' (null ++ v ∷ []) h in
        (
          all,
          subst (λ x. (shuffled random sizes n rng' r' (append_some null x)).1 ≡ some all) (sym e)
              q,
          omega (arith, length-append null (v ∷ [])),
        )

    -- For groups that are not empty, the test gives a p. It is k / (n + 1) for the n shuffles and
    -- a k from 1 to n + 1, so it is never zero and at most one, whatever the generator does.
    pub rank_sum_test-bounds :
        (rank_list : List F) (sizes : List ℕ) (n : ℕ) (rng : S)
        → All (λ size. 0 < size) sizes
        → (k : ℕ) × ((rank_sum_test random rank_list sizes n rng).1
            ≡ some (a.div (a.of_ℕ k) (a.of_ℕ (n + 1))))
          × (1 ≤ k)
          × (k ≤ n + 1)
    unfolding rank_sum_test test_with p_of p_value at_least
    rank_sum_test-bounds rank_list sizes n rng h =
        let (observed, e) = statistic-some sizes rank_list h in
        let (null, q, l) = shuffled-some sizes n rng rank_list [] h in
        let counted : length null ≡ n = omega arith in
        let few = count-le_length (λ v. le observed v) null in
        (
          at_least observed null + 1,
          subst
              (λ x.
                (test_with random rank_list sizes n rng x).1
                ≡ some (a.div (a.of_ℕ (at_least observed null + 1)) (a.of_ℕ (n + 1))))
              (sym e)
              (ap (λ x. p_of random x observed) q
                ∙ ap (λ m. some (a.div (a.of_ℕ (at_least observed null + 1)) (a.of_ℕ (m + 1))))
                    counted),
          omega arith,
          omega arith,
        )
