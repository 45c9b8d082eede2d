-- ===== src/Report/Launches/Slices.antt =====
-- Medians of groups and of slices, and the spreads of shuffles.
use matching_machine.Prelude.{
  length-map, ℕ, zero, suc, ◌+◌, ◌-◌, ◌*◌, ◌/◌, ◌<◌, ◌≤◌, ◌≡◌, ◌≢◌, refl, sym, ap, subst, Option,
  some, List, [], ◌∷◌, ◌++◌, map, length, length-append, length-take, length-drop, get_elem?-some,
  take, drop, All, arith,
}
use matching_machine.Report.Extremes.{spread}
use matching_machine.Report.Floats.{Order, Arith}
use matching_machine.Report.Median.{median}
use matching_machine.Report.Median.Laws.{median-Halves}
use matching_machine.Report.Permutation.{Random, append_some}
use matching_machine.Report.Sort.{sorted, length-sorted}
use matching_machine.Report.Launches.{
  concat, and_value, medians_of, relative, medians_from, spread_of, percentile_95, scatter_from,
  percentile_of,
}

abbrev pub sum_of : List ℕ → ℕ
sum_of [] = 0
sum_of (n ∷ ns) = n + sum_of ns

pub ne_nil {ℓ} : {A : Type ℓ} (xs : List A) → 1 ≤ length xs → xs ≢ []
ne_nil [] h e = omega arith
ne_nil (x ∷ xs) h e = cc

pub length-concat {ℓ} :
    {A : Type ℓ} (xss : List (List A)) → length (concat xss) ≡ sum_of (map length xss)
length-concat [] = refl
length-concat (xs ∷ xss) = omega (arith, length-append xs (concat xss), length-concat xss)

module _ {F : Type 0} ⦃o : Order F⦄ ⦃a : Arith F⦄ where
  -- As many values as asked for.
  abbrev pub Gives : ℕ → Option (List F) → Type 0
  Gives n r = (values : List F) × (r ≡ some values) × (length values ≡ n)

  Gives-and_value :
      (g : List F) (n : ℕ) (rest : Option (List F))
      → g ≢ []
      → Gives n rest
      → Gives (suc n) (and_value (median g) rest)
  unfolding and_value
  Gives-and_value g n rest ne (values, e, l) =
      let (m, q, halves) = median-Halves g ne in (m ∷ values, rw (q, e) refl, ap suc l)

  pub Gives-medians_of :
      (groups : List (List F))
      → All (λ g. g ≢ []) groups
      → Gives (length groups) (medians_of groups)
  unfolding medians_of
  Gives-medians_of [] h = ([], refl, refl)
  Gives-medians_of (g ∷ groups) h =
      Gives-and_value g (length groups) (medians_of groups) h.0 (Gives-medians_of groups h.1)

  pub length-relative :
      (groups : List (List F)) (meds : List F)
      → length meds ≡ length groups
      → length (relative groups meds) ≡ length (concat groups)
  unfolding relative
  length-relative [] meds e = refl
  length-relative (g ∷ groups) [] e = absurd (omega arith)
  length-relative (g ∷ groups) (m ∷ meds) e = omega (
    arith,
    length-append (map (λ v. a.div v m) g) (relative groups meds),
    length-append g (concat groups),
    length-map (λ v. a.div v m) g,
    length-relative groups meds (omega (arith, e)),
  )

  Gives-medians_from :
      (flat : List F) (sizes : List ℕ) (i : ℕ)
      → All (λ size. 0 < size) sizes
      → i + sum_of sizes ≤ length flat
      → Gives (length sizes) (medians_from flat sizes i)
  unfolding medians_from
  Gives-medians_from flat [] i h l = ([], refl, refl)
  Gives-medians_from flat (size ∷ sizes) i h l =
      let slice = take size (drop i flat) in
      let some_left : 1 ≤ length slice =
        omega (arith, h.0, length-take size (drop i flat), length-drop i flat) in
      Gives-and_value slice (length sizes) _ (ne_nil slice some_left)
        (Gives-medians_from flat sizes (i + size) h.1 (omega arith))

  pub spread-some : (n : ℕ) (meds : List F) → length meds ≡ suc n → (s : F) × (spread meds ≡ some s)
  unfolding spread
  spread-some n [] e = absurd (omega arith)
  spread-some n (m ∷ meds) e = (_, refl)

  pub spread_of-some :
      (n : ℕ) (meds : Option (List F)) → Gives (suc n) meds → (s : F) × (spread_of meds ≡ some s)
  unfolding spread_of
  spread_of-some n meds (values, e, l) =
      let (s, q) = spread-some n values l in (s, subst (λ r. spread_of r ≡ some s) (sym e) q)

  pub percentile_of-some :
      (n : ℕ) (scatter : Option (List F))
      → Gives (suc n) scatter
      → (v : F) × (percentile_of scatter ≡ some v)
  unfolding percentile_of percentile_95
  percentile_of-some n scatter (values, e, l) =
      let (v, q) =
        get_elem?-some (sorted (λ w. w) values) (95 * (length values - 1) / 100)
          (omega (arith, l, length-sorted (λ w. w) values)) in
      (v, subst (λ r. percentile_of r ≡ some v) (sym e) q)

  module _ {S : Type 0} (random : Random S F) where
    -- A shuffle is as long as what is shuffled.
    abbrev pub KeepsLength : Type 0
    KeepsLength = (rng : S) (values : List F) → length (random.shuffle rng values).1 ≡ length values

    pub Gives-scatter_from :
        (sizes : List ℕ) (m n : ℕ) (rng : S) (flat scatter : List F)
        → KeepsLength
        → All (λ size. 0 < size) sizes
        → length sizes ≡ suc m
        → sum_of sizes ≡ length flat
        → Gives (length scatter + n) (scatter_from random sizes n rng flat (some scatter)).1
    unfolding scatter_from append_some
    Gives-scatter_from sizes m zero rng flat scatter keeps h k l = (scatter, refl, omega arith)
    Gives-scatter_from sizes m (suc n) rng flat scatter keeps h k l =
        let (rng', flat') = random.shuffle rng flat in
        let same = keeps rng flat in
        let meds =
          subst (λ j. Gives j (medians_from flat' sizes 0)) k
            (Gives-medians_from flat' sizes 0 h (omega (arith, same, l))) in
        let (s, e) = spread_of-some m (medians_from flat' sizes 0) meds in
        let (all, q, c) =
          Gives-scatter_from sizes m n rng' flat' (scatter ++ s ∷ []) keeps h k
            (omega (arith, same, l)) in
        (
          all,
          subst (λ x. (scatter_from random sizes n rng' flat' (append_some scatter x)).1 ≡ some all)
              (sym e) q,
          omega (arith, c, length-append scatter (s ∷ [])),
        )
