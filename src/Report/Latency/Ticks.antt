-- ===== src/Report/Latency/Ticks.antt =====
-- The ticks of each group of latency reports.
use matching_machine.Prelude.{
  ℕ, ◌≡◌, ◌≢◌, refl, sym, ap, ◌∙◌, Bool, true, false, ◌&&◌, ◌||◌, Option, none, some, List, [], ◌∷◌,
  ◌++◌, arith, if◌then◌else◌, Bool-cases, Option-cases, inl, inr,
}
use mathlib.Core.List.{append-nil, append_assoc}
use matching_machine.Report.Latency.{
  Percentile, Pipeline, same_pipeline, same_percentile, Row, GroupKey, same_group, is_counted,
  counted, is_reported, pipeline_of, Groups, add_ticks, key_of, group_rows, latency_groups,
}

true_ne_false : true ≢ false
true_ne_false e = cc

-- The ticks that are grouped under a key.
abbrev pub ticks_in : Groups → GroupKey → List ℕ
ticks_in [] k = []
ticks_in ((l, ticks) ∷ groups) k = if same_group l k then ticks else ticks_in groups k

same_pipeline-eq : (p q : Pipeline) → same_pipeline p q ≡ true → p ≡ q
same_pipeline-eq p q h = ground arith

same_percentile-eq : (p q : Percentile) → same_percentile p q ≡ true → p ≡ q
same_percentile-eq p q h = ground arith

same_group-eq : (k l : GroupKey) → same_group k l ≡ true → k ≡ l
same_group-eq k l h =
    ground
      (arith, same_pipeline-eq k.pipeline l.pipeline, same_percentile-eq k.percentile l.percentile)

same_group_refl : (k : GroupKey) → same_group k k ≡ true
same_group_refl k = ground arith

-- A key that is not that of the group before it cannot be the one looked for, if this is.
same_group-other :
    (k l m : GroupKey) → same_group m k ≡ false → same_group m l ≡ true → same_group k l ≡ false
same_group-other k l m e f = elim (Bool-cases (same_group k l)) [
  | inr g ↦ g
  | inl g ↦
      let q : m ≡ k = same_group-eq m l f ∙ sym (same_group-eq k l g) in
      absurd (true_ne_false (sym (same_group_refl k) ∙ ap (λ x. same_group x k) (sym q) ∙ e))
]

ticks_in-add_ticks :
    (k l : GroupKey) (n : ℕ) (groups : Groups)
    → ticks_in (add_ticks k n groups) l
      ≡ (if same_group k l then ticks_in groups l ++ n ∷ [] else ticks_in groups l)
unfolding add_ticks
ticks_in-add_ticks k l n [] = refl
ticks_in-add_ticks k l n ((m, ticks) ∷ groups) = elim (Bool-cases (same_group m k)) [
  | inl e ↦
      let q = ap (λ x. same_group x l) (same_group-eq m k e) in
      elim (Bool-cases (same_group k l)) [ inl f ↦ rw (e, q, f) refl | inr f ↦ rw (e, q, f) refl ]
  | inr e ↦ elim (Bool-cases (same_group m l)) [
    | inl f ↦ rw (e, f, same_group-other k l m e f) refl
    | inr f ↦ rw (e, f) (ticks_in-add_ticks k l n groups)
  ]
]

module _ (end_to_end : ℕ) where
  abbrev belongs : Row → GroupKey → Option Pipeline → Bool
  belongs r k none = false
  belongs r k (some p) = same_group (key_of end_to_end r p) k

  -- The ticks of the rows that are counted, reported and of a key, in their order.
  abbrev pub ticks_of : List Row → GroupKey → List ℕ
  ticks_of [] k = []
  ticks_of (r ∷ rows) k =
      if is_counted r && is_reported r.percentile && belongs r k (pipeline_of r.binary)
      then r.ticks ∷ ticks_of rows k
      else ticks_of rows k

  -- A counted and reported row is of a binary without a pipeline.
  abbrev pub has_unknown : List Row → Bool
  has_unknown [] = false
  has_unknown (r ∷ rows) =
      (is_counted r
        && is_reported r.percentile
        && elim (pipeline_of r.binary) [ none ↦ true | some p ↦ false ])
      || has_unknown rows

  abbrev pub Grouped : Groups → List Row → Option Groups → Type 0
  Grouped before rows none = has_unknown rows ≡ true
  Grouped before rows (some groups) =
      (has_unknown rows ≡ false)
      × ((k : GroupKey) → ticks_in groups k ≡ ticks_in before k ++ ticks_of rows k)

  -- A row that is counted and reported goes to its group.
  Grouped-add :
      (r : Row) (rows : List Row) (before : Groups) (p : Pipeline) (result : Option Groups)
      → is_counted r ≡ true
      → is_reported r.percentile ≡ true
      → pipeline_of r.binary ≡ some p
      → Grouped (add_ticks (key_of end_to_end r p) r.ticks before) rows result
      → Grouped before (r ∷ rows) result
  Grouped-add r rows before p none c t q h = rw (c, t, q) h
  Grouped-add r rows before p (some groups) c t q h = (
    rw (c, t, q) h.0,
    λ k.
        let added = ticks_in-add_ticks (key_of end_to_end r p) k r.ticks before in
        elim (Bool-cases (same_group (key_of end_to_end r p) k)) [
          | inl e ↦
              rw (c, t, q, e)
                (h.1 k
                  ∙ ap (λ l. l ++ ticks_of rows k) (rw e at added)
                  ∙ append_assoc (ticks_in before k) (r.ticks ∷ []) (ticks_of rows k))
          | inr e ↦ rw (c, t, q, e) (h.1 k ∙ ap (λ l. l ++ ticks_of rows k) (rw e at added))
        ],
  )

  has_unknown-here :
      (r : Row) (rows : List Row)
      → is_counted r ≡ true
      → is_reported r.percentile ≡ true
      → pipeline_of r.binary ≡ none
      → has_unknown (r ∷ rows) ≡ true
  has_unknown-here r rows c t q = rw (c, t, q) refl

  has_unknown-skip :
      (r : Row) (rows : List Row)
      → (is_counted r && is_reported r.percentile) ≡ false
      → has_unknown (r ∷ rows) ≡ has_unknown rows
  has_unknown-skip r rows e = elim (Bool-cases (is_counted r)) [
    | inl c ↦ rw (c, rw c at e) refl
    | inr c ↦ rw c refl
  ]

  ticks_of-skip :
      (r : Row) (rows : List Row) (k : GroupKey)
      → (is_counted r && is_reported r.percentile) ≡ false
      → ticks_of (r ∷ rows) k ≡ ticks_of rows k
  ticks_of-skip r rows k e = elim (Bool-cases (is_counted r)) [
    | inl c ↦ rw (c, rw c at e) refl
    | inr c ↦ rw c refl
  ]

  -- A row that is not counted or not reported goes nowhere.
  Grouped-skip :
      (r : Row) (rows : List Row) (before : Groups) (result : Option Groups)
      → (is_counted r && is_reported r.percentile) ≡ false
      → Grouped before rows result
      → Grouped before (r ∷ rows) result
  Grouped-skip r rows before none e h = has_unknown-skip r rows e ∙ h
  Grouped-skip r rows before (some groups) e h = (
    has_unknown-skip r rows e ∙ h.0,
    λ k. h.1 k ∙ ap (λ l. ticks_in before k ++ l) (sym (ticks_of-skip r rows k e)),
  )

  group_rows-Grouped :
      (rows : List Row) (before : Groups)
      → Grouped before rows (group_rows end_to_end (counted rows) before)
  unfolding group_rows counted
  group_rows-Grouped [] before = (refl, λ k. sym (append-nil (ticks_in before k)))
  group_rows-Grouped (r ∷ rows) before =
      let rest = group_rows-Grouped rows before in
      elim (Bool-cases (is_counted r)) [
        | inr c ↦ rw c (Grouped-skip r rows before _ (rw c refl) rest)
        | inl c ↦ elim (Bool-cases (is_reported r.percentile)) [
          | inr t ↦ rw (c, t) (Grouped-skip r rows before _ (rw (c, t) refl) rest)
          | inl t ↦ elim (Option-cases (pipeline_of r.binary)) [
            | inl q ↦ rw (c, t, q) (has_unknown-here r rows c t q)
            | inr (p, q) ↦
                rw (c, t, q)
                  (Grouped-add r rows before p _ c t q
                    (group_rows-Grouped rows (add_ticks (key_of end_to_end r p) r.ticks before)))
          ]
        ]
      ]

  -- If each counted row of a P50 or P99 is of a binary that has a pipeline, there are groups, and each
  -- holds the ticks of just these rows of its key, in their order. Otherwise the lookup of the pipeline
  -- fails.
  pub latency_groups-Grouped : (rows : List Row) → Grouped [] rows (latency_groups end_to_end rows)
  unfolding latency_groups
  latency_groups-Grouped rows = group_rows-Grouped rows []
