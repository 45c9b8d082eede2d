-- ===== src/Summary/Scores/Rows.antt =====
-- What the benchmark table says of the launches.
use matching_machine.Prelude.{
  ℕ, suc, ◌+◌, ◌≤◌, ◌≡◌, ◌≢◌, refl, sym, ap, ◌∙◌, subst, Bool, true, Option, none, some, List, [],
  ◌∷◌, map, length, length-map, select, All, All-zip, arith, Bool-cases, inl, inr,
}
use matching_machine.Report.Floats.{Order, Arith, le}
use matching_machine.Report.Sort.{sorted, All-sorted}
use matching_machine.Report.Median.{median}
use matching_machine.Report.Median.Laws.{median-Halves}
use matching_machine.Summary.{Group}
use matching_machine.Summary.Grouping.{Groups, group_all}
use matching_machine.Summary.Grouping.Laws.{
  weight, weight_ones, total, NotEmpty, group_all-Grouped, total-sorted, rows_of,
}
use matching_machine.Report.Extremes.Laws.{Halves-between}
use matching_machine.Summary.Scores.{
  Triple, same_triple, triple_keys, Deviation, Score, Row, triple_of, score_of, row_from, row_of,
  and_score, scores_of, and_row, rows_from, grouped_rows, benchmark_rows,
}

map_ne_nil {ℓ κ} : {A : Type ℓ} {B : Type κ} (f : A → B) (xs : List A) → xs ≢ [] → map f xs ≢ []
map_ne_nil f [] ne e = ne refl
map_ne_nil f (x ∷ xs) ne e = cc

length-select-map {ℓ κ} :
    {A : Type ℓ} {B : Type κ} (f : A → B) (p : B → Bool) (xs : List A)
    → length (select p (map f xs)) ≡ length (select (λ x. p (f x)) xs)
length-select-map f p [] = refl
length-select-map f p (x ∷ xs) = elim (Bool-cases (p (f x))) [
  | inl e ↦ rw e (ap suc (length-select-map f p xs))
  | inr e ↦ rw e (length-select-map f p xs)
]

abbrev pub launches_in : {F : Type 0} → Triple → List (Group F) → List (Group F)
launches_in k groups = select (λ g. same_triple (triple_of g) k) groups

module _ {F : Type 0} ⦃o : Order F⦄ ⦃a : Arith F⦄ where
  -- A row counts the launches of its condition, binary and benchmark, of which there is at least one,
  -- and its median score lies between the least and the largest.
  abbrev pub IsRow : List (Group F) → ℕ → Row F → Type 0
  IsRow groups repetitions row =
      (row.launches ≡ length (launches_in (row.condition, row.binary, row.benchmark) groups))
      × (1 ≤ row.launches)
      × (row.repetitions ≡ repetitions)
      × (le row.min_ns row.median_ns ≡ true)
      × (le row.median_ns row.max_ns ≡ true)

  abbrev pub all_launches : List (Row F) → ℕ
  all_launches rows = weight (λ row. row.launches) rows

  abbrev pub HasTimes : Group F → Type 0
  HasTimes g = g.times ≢ []

  module _ (stats : Deviation F) where
    abbrev Scores : List (Group F) → Option (List (Triple × Score F)) → Type 0
    Scores groups none = ⊥
    Scores groups (some scores) = map (λ s. s.0) scores ≡ map triple_of groups

    with_score :
        (k : Triple) (groups : List (Group F)) (g : Group F) (s : Score F)
        (rest : Option (List (Triple × Score F)))
        → triple_of g ≡ k
        → Scores groups rest
        → Scores (g ∷ groups) (and_score stats k (some s) rest)
    unfolding and_score
    with_score k groups g s none e h = elim h [ ]
    with_score k groups g s (some scores) e h = rw e (ap (λ ks. k ∷ ks) h)

    scores_of-Scores :
        (groups : List (Group F)) → All HasTimes groups → Scores groups (scores_of stats groups)
    unfolding scores_of score_of
    scores_of-Scores [] h = refl
    scores_of-Scores (g ∷ groups) h =
        let values = map (λ (t : ℕ × F). t.1) g.times in
        let (m, e, halves) = median-Halves values (map_ne_nil (λ t. t.1) g.times h.0) in
        rw e (with_score (triple_of g) groups g _ _ refl (scores_of-Scores groups h.1))

    -- The row of a group of scores.
    abbrev IsRowOf : ℕ → Triple × List (Score F) → Option (Row F) → Type 0
    IsRowOf repetitions g none = ⊥
    IsRowOf repetitions (k, scores) (some row) =
        ((row.condition, row.binary, row.benchmark) ≡ k)
        × (row.launches ≡ length scores)
        × (row.repetitions ≡ repetitions)
        × (le row.min_ns row.median_ns ≡ true)
        × (le row.median_ns row.max_ns ≡ true)

    from_medians :
        (repetitions : ℕ) (k : Triple) (scores : List (Score F)) (medians : List F)
        → medians ≢ []
        → length medians ≡ length scores
        → IsRowOf repetitions
            (k, scores)
            (row_from stats repetitions k scores medians (median medians))
    unfolding row_from
    from_medians repetitions k scores [] ne e = absurd (ne refl)
    from_medians repetitions k scores (first ∷ rest) ne e =
        let (m, q, halves) = median-Halves (first ∷ rest) ne in
        let (low, high) = Halves-between first rest m halves in rw q (refl, e, refl, low, high)

    row_of-IsRowOf :
        (repetitions : ℕ) (g : Triple × List (Score F))
        → NotEmpty g
        → IsRowOf repetitions g (row_of stats repetitions g)
    unfolding row_of
    row_of-IsRowOf repetitions (k, scores) ne =
        from_medians repetitions k scores (map (λ (s : Score F). s.middle) scores)
          (map_ne_nil (λ (s : Score F). s.middle) scores ne)
          (length-map (λ (s : Score F). s.middle) scores)

    -- A group of scores is not empty and has one for each launch of its key.
    IsGroup : List (Group F) → Triple × List (Score F) → Type 0
    IsGroup groups (k, scores) = (scores ≢ []) × (length scores ≡ length (launches_in k groups))

    abbrev IsTable : List (Group F) → ℕ → ℕ → Option (List (Row F)) → Type 0
    IsTable groups repetitions n none = ⊥
    IsTable groups repetitions n (some rows) =
        All (IsRow groups repetitions) rows × (all_launches rows ≡ n)

    with_row :
        (groups : List (Group F)) (repetitions n : ℕ) (g : Triple × List (Score F))
        (row : Option (Row F)) (rest : Option (List (Row F)))
        → IsGroup groups g
        → IsRowOf repetitions g row
        → IsTable groups repetitions n rest
        → IsTable groups repetitions (length g.1 + n) (and_row stats row rest)
    unfolding and_row IsGroup
    with_row groups repetitions n (k, scores) none rest (ne, same) h t = elim h [ ]
    with_row groups repetitions n (k, scores) (some row) none (ne, same) h t = elim t [ ]
    with_row groups repetitions n (k, scores) (some row) (some rows) (ne, same)
          (key, many, reps, low, high) t =
        (
          (
            (
              many ∙ same ∙ ap (λ l. length (launches_in l groups)) (sym key),
              omega (arith, many, some_left scores ne),
              reps,
              low,
              high,
            ),
            t.0,
          ),
          omega (arith, many, t.1),
        )
      where
        some_left : (xs : List (Score F)) → xs ≢ [] → 1 ≤ length xs
        some_left [] ne = absurd (ne refl)
        some_left (x ∷ xs) ne = omega arith

    rows_from-IsTable :
        (groups : List (Group F)) (repetitions : ℕ) (gs : Groups Triple (Score F))
        → All (IsGroup groups) gs
        → IsTable groups repetitions (total (λ _. 1) gs) (rows_from stats repetitions gs)
    unfolding rows_from IsGroup
    rows_from-IsTable groups repetitions [] h = (tt, refl)
    rows_from-IsTable groups repetitions (g ∷ gs) h =
        subst
          (λ n.
            IsTable groups repetitions n
              (and_row stats (row_of stats repetitions g) (rows_from stats repetitions gs)))
          (ap (λ m. m + total (λ _. 1) gs) (sym (weight_ones g.1)))
          (with_row groups repetitions _ g _ _ h.0 (row_of-IsRowOf repetitions g h.0.0)
            (rows_from-IsTable groups repetitions gs h.1))

    counted :
        (groups : List (Group F)) (scores : List (Triple × Score F)) (k : Triple)
        → map (λ (s : Triple × Score F). s.0) scores ≡ map triple_of groups
        → length (rows_of (λ (s : Triple × Score F). s.0) (λ s. s.1) k scores)
          ≡ length (launches_in k groups)
    counted groups scores k e =
        sym (length-select-map (λ (s : Triple × Score F). s.0) (λ l. same_triple l k) scores)
        ∙ ap (λ ks. length (select (λ l. same_triple l k) ks)) e
        ∙ length-select-map triple_of (λ l. same_triple l k) groups

    grouped :
        (groups : List (Group F)) (scores : List (Triple × Score F))
        → map (λ (s : Triple × Score F). s.0) scores ≡ map triple_of groups
        → All (IsGroup groups) (group_all (λ (s : Triple × Score F). s.0) (λ s. s.1) scores [])
    unfolding IsGroup
    grouped groups scores e =
        let g = group_all-Grouped (λ (s : Triple × Score F). s.0) (λ s. s.1) scores in
        All-zip (group_all (λ (s : Triple × Score F). s.0) (λ s. s.1) scores [])
          (λ (x : Triple × List (Score F)) exact ne. (
            ne,
            ap length exact
                ∙ length-map (λ (s : Triple × Score F). s.1)
                    (rows_of (λ s. s.0) (λ s. s.1) x.0 scores)
                ∙ counted groups scores x.0 e,
          ))
          g.exact g.not_empty

    module _ {N : Type 0} ⦃by : Order N⦄ (natural : Triple → N) where
      scored :
          (groups : List (Group F)) (repetitions : ℕ) (scores : Option (List (Triple × Score F)))
          → Scores groups scores
          → IsTable groups repetitions
              (length groups)
              (grouped_rows stats natural repetitions scores)
      unfolding grouped_rows
      scored groups repetitions none h = elim h [ ]
      scored groups repetitions (some scores) h =
          let gs = group_all (λ (s : Triple × Score F). s.0) (λ s. s.1) scores [] in
          let g = group_all-Grouped (λ (s : Triple × Score F). s.0) (λ s. s.1) scores in
          let by = λ (x : Triple × List (Score F)). natural x.0 in
          subst (λ n. IsTable groups repetitions n (rows_from stats repetitions (sorted by gs)))
            (total-sorted by (λ _. 1) gs
              ∙ g.all_rows (λ _. 1)
              ∙ weight_ones (map (λ (s : Triple × Score F). s.1) scores)
              ∙ length-map (λ (s : Triple × Score F). s.1) scores
              ∙ sym (length-map (λ (s : Triple × Score F). s.0) scores)
              ∙ ap length h
              ∙ length-map triple_of groups)
            (rows_from-IsTable groups repetitions (sorted by gs)
              (All-sorted by (IsGroup groups) gs (grouped groups scores h)))

      there_is :
          (groups : List (Group F)) (repetitions : ℕ) (table : Option (List (Row F)))
          → IsTable groups repetitions (length groups) table
          → (rows : List (Row F)) × (table ≡ some rows)
            × All (IsRow groups repetitions) rows
            × (all_launches rows ≡ length groups)
      there_is groups repetitions none t = elim t [ ]
      there_is groups repetitions (some rows) t = (rows, refl, t.0, t.1)

      -- Where each group has a time, there is a table. Its rows together count each group once; each
      -- counts the launches of its condition, binary and benchmark, has at least one, and has its
      -- median score between the least and the largest.
      pub benchmark_rows-IsTable :
          (groups : List (Group F)) (repetitions : ℕ)
          → All HasTimes groups
          → (rows : List (Row F)) × (benchmark_rows stats natural repetitions groups ≡ some rows)
            × All (IsRow groups repetitions) rows
            × (all_launches rows ≡ length groups)
      unfolding benchmark_rows
      benchmark_rows-IsTable groups repetitions h =
          there_is groups repetitions (benchmark_rows stats natural repetitions groups)
            (scored groups repetitions (scores_of stats groups) (scores_of-Scores groups h))
