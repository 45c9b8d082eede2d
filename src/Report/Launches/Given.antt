-- ===== src/Report/Launches/Given.antt =====
-- What the tests of launches and of groups give.
use matching_machine.Prelude.{
  ℕ, suc, ◌+◌, ◌-◌, ◌<◌, ◌≤◌, ◌≡◌, ◌≢◌, refl, sym, ap, ◌∙◌, subst, Option, none, some, List, [],
  ◌∷◌, map, length, length-map, length_pos, All, arith,
}
use matching_machine.Report.Extremes.{spread}
use matching_machine.Report.Floats.{Order, Arith}
use matching_machine.Report.Permutation.{Random, rank_sum_test}
use matching_machine.Report.Permutation.Bounds.{rank_sum_test-bounds}
use matching_machine.Report.Ranks.{ranks}
use matching_machine.Report.Ranks.Laws.{ranks-rank_of}
use matching_machine.Report.Ranks.Counts.{rank_of}
use matching_machine.Report.Tiers.Shares.{number_keys}
use matching_machine.Report.Trend.{rank_values}
use matching_machine.Summary.Grouping.{Groups, group_all}
use matching_machine.Summary.Grouping.Laws.{weight, total, NotEmpty, group_all-Grouped}
use matching_machine.Report.Launches.{
  concat, medians_of, relative, spread_of, scatter_from, triple_of, launch_test_with, launch_test,
  labelled, members_of, pair_of, group_test,
}
use matching_machine.Report.Launches.Slices.{
  ne_nil, length-concat, Gives, Gives-medians_of, length-relative, spread-some, spread_of-some,
  percentile_of-some, KeepsLength, Gives-scatter_from,
}

module _ {F : Type 0} ⦃o : Order F⦄ ⦃a : Arith F⦄ where
  -- A p of n shuffles: k / (n + 1) with a k from 1 to n + 1.
  abbrev pub IsP : ℕ → F → Type 0
  IsP n p = (k : ℕ) × (p ≡ a.div (a.of_ℕ k) (a.of_ℕ (n + 1))) × (1 ≤ k) × (k ≤ n + 1)

  sizes_pos :
      (groups : List (List F))
      → All (λ g. g ≢ []) groups
      → All (λ size. 0 < size) (map length groups)
  sizes_pos [] h = tt
  sizes_pos (g ∷ groups) h = (omega (arith, length_pos g h.0), sizes_pos groups h.1)

  module _ {S : Type 0} (random : Random S F) where
    -- The results of the launch test.
    abbrev pub IsGiven : List (List F) → ℕ → Option (F × F × F) → Type 0
    IsGiven groups n none = ⊥
    IsGiven groups n (some (s, expected, p)) =
        ((meds : List F) × (medians_of groups ≡ some meds) × (spread meds ≡ some s)) × IsP n p

    given :
        (groups : List (List F)) (n : ℕ) (s expected p : Option F) (v w k : F) (meds : List F)
        → medians_of groups ≡ some meds
        → spread meds ≡ some v
        → s ≡ some v
        → expected ≡ some w
        → p ≡ some k
        → IsP n k
        → IsGiven groups n (triple_of s expected p)
    unfolding triple_of
    given groups n s expected p v w k meds m q e f g h = rw (e, f, g) ((meds, m, q), h)

    -- With at least one launch, a repetition in each launch, at least one shuffle and shuffles that keep
    -- the length, the launch test gives its three results. The first is the spread of the launch
    -- medians; p is k / (n + 1) for the n shuffles and a k from 1 to n + 1.
    pub launch_test-IsGiven :
        (groups : List (List F)) (n : ℕ) (rng : S)
        → groups ≢ []
        → All (λ g. g ≢ []) groups
        → 1 ≤ n
        → KeepsLength random
        → IsGiven groups n (launch_test random groups n rng).1
    unfolding launch_test launch_test_with
    launch_test-IsGiven groups n rng ne full some_shuffle keeps =
        let sizes = map length groups in
        let pos = sizes_pos groups full in
        let (meds, e, l) = Gives-medians_of groups full in
        let many : length groups ≡ suc (length groups - 1) = omega (arith, length_pos groups ne) in
        let (v, spread_is) = spread-some (length groups - 1) meds (l ∙ many) in
        let (k, p_is, low, high) =
          rank_sum_test-bounds random (rank_values (concat groups)) sizes n rng pos in
        let rng' = (rank_sum_test random (rank_values (concat groups)) sizes n rng).0 in
        let flat = relative groups meds in
        let scatter =
          Gives-scatter_from random sizes (length groups - 1) n rng' flat [] keeps pos
            (length-map length groups ∙ many)
            (sym (length-relative groups meds l ∙ length-concat groups)) in
        let (w, expected_is) =
          percentile_of-some (n - 1) (scatter_from random sizes n rng' flat (some [])).1 (
            subst (λ j. Gives j (scatter_from random sizes n rng' flat (some [])).1) (omega arith)
              scatter) in
        subst (λ r. IsGiven groups n (launch_test_with random groups r n rng).1) (sym e)
          (given groups n _ _ _ v w _ meds e spread_is spread_is expected_is p_is
            (k, refl, low, high))

    labelled_ne_nil :
        (values ranks : List F) (labels : List ℕ)
        → values ≢ []
        → ranks ≢ []
        → labels ≢ []
        → labelled values ranks labels ≢ []
    unfolding labelled
    labelled_ne_nil [] ranks labels v r l e = v refl
    labelled_ne_nil (x ∷ values) [] labels v r l e = r refl
    labelled_ne_nil (x ∷ values) (y ∷ ranks) [] v r l e = l refl
    labelled_ne_nil (x ∷ values) (y ∷ ranks) (z ∷ labels) v r l e = cc

    rank_values_ne_nil :
        (values : List F) → values ≢ [] → let rs : List F = rank_values values in rs ≢ []
    unfolding rank_values
    rank_values_ne_nil values ne =
        let rs : List F = rank_values values in
        ne_nil rs (
          omega (
            arith,
            length-map (λ r. a.div (a.of_ℕ r) (a.of_ℕ 2)) (ranks values),
            ap length (ranks-rank_of values),
            length-map (rank_of values) values,
            length_pos values ne,
          ))

    abbrev pub firsts : Groups ℕ (F × F) → List (List F)
    firsts gs = map (λ m. map (λ (x : F × F). x.0) m) (map (λ (g : ℕ × List (F × F)). g.1) gs)

    members_full :
        (gs : Groups ℕ (F × F))
        → All NotEmpty gs
        → All (λ g. g ≢ []) (firsts gs)
          × All (λ size. 0 < size) (map length (map (λ (g : ℕ × List (F × F)). g.1) gs))
    members_full [] h = (tt, tt)
    members_full ((l, m) ∷ gs) h =
        let (full, pos) = members_full gs h.1 in
        let many = length_pos m h.0 in
        (
          (
            ne_nil (map (λ (x : F × F). x.0) m)
                (omega (arith, many, length-map (λ (x : F × F). x.0) m)),
            full,
          ),
          (omega (arith, many), pos),
        )

    some_groups :
        (gs : Groups ℕ (F × F))
        → 1 ≤ total (λ _. 1) gs
        → length (firsts gs) ≡ suc (length (firsts gs) - 1)
    some_groups [] h = absurd (omega arith)
    some_groups (g ∷ gs) h = omega arith

    some_weight :
        {A B : Type 0} (f : A → B) (xs : List A) → xs ≢ [] → 1 ≤ weight (λ _. 1) (map f xs)
    some_weight f [] ne = absurd (ne refl)
    some_weight f (x ∷ xs) ne = omega arith

    paired : (s p : Option F) (v k : F) → s ≡ some v → p ≡ some k → pair_of s p ≡ some (v, k)
    unfolding pair_of
    paired s p v k e f = rw (e, f) refl

    -- With at least one value and one label, the test of groups gives a spread and a p. The spread is that
    -- of the medians of the groups, none of which is empty; p is k / (n + 1) for a k from 1 to n + 1.
    pub group_test-gives :
        (values : List F) (labels : List ℕ) (n : ℕ) (rng : S)
        → values ≢ []
        → labels ≢ []
        → (s : F) × (p : F) × ((group_test random values labels n rng).1 ≡ some (s, p))
          × (spread_of (medians_of (firsts (members_of values labels))) ≡ some s)
          × All (λ g. g ≢ []) (firsts (members_of values labels))
          × IsP n p
    unfolding group_test members_of
    group_test-gives values labels n rng v l =
        let rs : List F = rank_values values in
        let rows = labelled values rs labels in
        let key = λ (m : ℕ × F × F). m.0 in
        let value : ℕ × F × F → F × F = λ m. (m.1, m.2) in
        let gs : Groups ℕ (F × F) = group_all key value rows [] in
        let g = group_all-Grouped key value rows in
        let (full, pos) = members_full gs g.not_empty in
        let counted : 1 ≤ total (λ _. 1) gs = omega (
          arith,
          g.all_rows (λ _. 1),
          some_weight value rows
              (labelled_ne_nil values rs labels v (rank_values_ne_nil values v) l),
        ) in
        let meds =
          subst (λ j. Gives j (medians_of (firsts gs))) (some_groups gs counted)
            (Gives-medians_of (firsts gs) full) in
        let (s, spread_is) = spread_of-some _ (medians_of (firsts gs)) meds in
        let members = map (λ (m : ℕ × List (F × F)). m.1) gs in
        let (k, p_is, low, high) =
          rank_sum_test-bounds random (concat (map (λ m. map (λ (x : F × F). x.1) m) members))
            (map length members) n rng pos in
        (s, _, paired _ _ s _ spread_is p_is, spread_is, full, (k, refl, low, high))
