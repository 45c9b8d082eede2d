-- ===== src/Report/Tiers/Cells.antt =====
-- The cells on each side of a threshold.
use matching_machine.Prelude.{
  ℕ, ◌≡◌, ◌≢◌, refl, ◌∙◌, Bool, true, ◌&&◌, not, List, [], ◌∷◌, ◌++◌, ◌==◌, map, all, any, select,
  count, length, All, arith, Bool-cases, inl, inr,
}
use matching_machine.Report.Floats.{Order, le, lt, nat_order}
use matching_machine.Report.Median.Laws.{Halves}
use matching_machine.Report.Extremes.Laws.{Halves-above, Halves-below}
use matching_machine.Report.Tiers.Shares.{
  number_keys, Cell, values_of, all_cells, is_slow, slow_at, share_from,
}
use matching_machine.Summary.Grouping.{Groups, group_all}
use matching_machine.Summary.Grouping.Laws.{rows_of}

pub not-all :
    {F : Type 0} (p : Cell F → Bool) (cells : List (Cell F))
    → not (all p cells) ≡ any (λ c. not (p c)) cells
not-all p [] = refl
not-all p (c ∷ cells) = ground (arith, not-all p cells)

pub select_ne_nil :
    {F : Type 0} (p : Cell F → Bool) (cells : List (Cell F))
    → any p cells ≡ true
    → values_of (select p cells) ≢ []
select_ne_nil p [] h = cc
select_ne_nil p (c ∷ cells) h = elim (Bool-cases (p c)) [
  | inl e ↦ rw e (λ q. cc)
  | inr e ↦ rw e (select_ne_nil p cells (rw e at h))
]

pub All-values_of :
    {F : Type 0} (Q : F → Type 0) (p : Cell F → Bool) (cells : List (Cell F))
    → ((c : Cell F) → p c ≡ true → Q c.value)
    → All Q (values_of (select p cells))
All-values_of Q p [] f = tt
All-values_of Q p (c ∷ cells) f = elim (Bool-cases (p c)) [
  | inl e ↦ rw e (f c e, All-values_of Q p cells f)
  | inr e ↦ rw e (All-values_of Q p cells f)
]

module _ {F : Type 0} ⦃o : Order F⦄ where
  pub below_threshold :
      (threshold m : F) (values : List F)
      → values ≢ []
      → All (λ v. not (lt threshold v) ≡ true) values
      → Halves values m
      → le m threshold ≡ true
  below_threshold threshold m values ne h halves =
      let (v, above, low) = Halves-above _ values m ne halves h in
      o.le_trans m v threshold above (ground arith)

  pub above_threshold :
      (threshold m : F) (values : List F)
      → values ≢ []
      → All (λ v. lt threshold v ≡ true) values
      → Halves values m
      → lt threshold m ≡ true
  above_threshold threshold m values ne h halves =
      let (v, below, high) = Halves-below _ values m ne halves h in
      elim (Bool-cases (le m threshold)) [
        | inl e ↦ let low = o.le_trans v m threshold below e in ground arith
        | inr e ↦ ground arith
      ]

  slow_at-any :
      (threshold : F) (region placement : ℕ) (cells : List (Cell F))
      → slow_at threshold region placement cells ≡ true
      → any (λ c. is_slow threshold c) cells ≡ true
  unfolding slow_at
  slow_at-any threshold region placement [] h = h
  slow_at-any threshold region placement (c ∷ cells) h =
      ground (arith, slow_at-any threshold region placement cells)

  pub any_both :
      (threshold : F) (cells regions : List (Cell F))
      → any (λ c. slow_at threshold c.region 0 cells && slow_at threshold c.region 1 cells) regions
        ≡ true
      → any (λ c. is_slow threshold c) cells ≡ true
  any_both threshold cells [] h = cc
  any_both threshold cells (c ∷ regions) h =
      ground (arith, slow_at-any threshold c.region 0 cells, any_both threshold cells regions)

  group_all-append :
      (threshold : F) (cells rest : List (Cell F)) (share : Groups ℕ Bool)
      → group_all
          (λ c. c.placement)
          (λ c. is_slow threshold c)
          rest
          (group_all (λ c. c.placement) (λ c. is_slow threshold c) cells share)
        ≡ group_all (λ c. c.placement) (λ c. is_slow threshold c) (cells ++ rest) share
  unfolding group_all
  group_all-append threshold [] rest share = refl
  group_all-append threshold (c ∷ cells) rest share = group_all-append threshold cells rest _

  pub share_from-all_cells :
      (threshold : F) (launches : List (List (Cell F))) (share : Groups ℕ Bool)
      → share_from threshold launches share
        ≡ group_all (λ c. c.placement) (λ c. is_slow threshold c) (all_cells launches) share
  unfolding share_from group_all
  share_from-all_cells threshold [] share = refl
  share_from-all_cells threshold (cells ∷ launches) share =
      share_from-all_cells threshold launches _
      ∙ group_all-append threshold cells (all_cells launches) share

  -- The cells of a placement, and the slow ones of them.
  abbrev pub placed : ℕ → List (Cell F) → ℕ
  placed p cells = count (λ c. c.placement == p) cells

  abbrev pub placed_slow : F → ℕ → List (Cell F) → ℕ
  placed_slow threshold p cells = count (λ c. c.placement == p && is_slow threshold c) cells

  unfoldable pub tiers_of : F → ℕ → List (Cell F) → List Bool
  tiers_of threshold p cells =
      map (λ c. is_slow threshold c) (rows_of (λ c. c.placement) (λ c. is_slow threshold c) p cells)

  pub length-tiers_of :
      (threshold : F) (p : ℕ) (cells : List (Cell F))
      → length (tiers_of threshold p cells) ≡ placed p cells
  unfolding tiers_of
  length-tiers_of threshold p [] = refl
  length-tiers_of threshold p (c ∷ cells) = ground (arith, length-tiers_of threshold p cells)

  pub count-tiers_of :
      (threshold : F) (p : ℕ) (cells : List (Cell F))
      → count (λ slow. slow) (tiers_of threshold p cells) ≡ placed_slow threshold p cells
  unfolding tiers_of
  count-tiers_of threshold p [] = refl
  count-tiers_of threshold p (c ∷ cells) = ground (arith, count-tiers_of threshold p cells)
