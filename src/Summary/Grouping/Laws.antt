-- ===== src/Summary/Grouping/Laws.antt =====
-- What the groups hold.
use mathlib.Core.List.{append-nil, append_assoc}
use matching_machine.Prelude.{
  length, ℕ, ◌+◌, ◌≡◌, ◌≢◌, refl, sym, ap, ◌∙◌, true, false, List, [], ◌∷◌, ◌++◌, map, select, All,
  All-map, All-zip, arith, if◌then◌else◌, if_both, Bool-cases, inl, inr,
}
use matching_machine.Report.Floats.{Order, le}
use matching_machine.Report.Sort.{insert_sorted, sorted}
use matching_machine.Summary.Grouping.{Keys, Groups, add_to, group_all}

true_ne_false : true ≢ false
true_ne_false e = cc

snoc_ne_nil {ℓ} : {A : Type ℓ} (xs : List A) (x : A) → xs ++ x ∷ [] ≢ []
snoc_ne_nil [] x e = cc
snoc_ne_nil (y ∷ xs) x e = cc

abbrev pub weight {ℓ} : {A : Type ℓ} → (A → ℕ) → List A → ℕ
weight w [] = 0
weight w (x ∷ xs) = w x + weight w xs

pub weight_ones {ℓ} : {A : Type ℓ} (xs : List A) → weight (λ _. 1) xs ≡ length xs
weight_ones [] = refl
weight_ones (x ∷ xs) = omega (arith, weight_ones xs)

pub map_same {ℓ} : {A : Type ℓ} (xs : List A) → map (λ x. x) xs ≡ xs
map_same [] = refl
map_same (x ∷ xs) = ap (◌∷◌ x) (map_same xs)

weight-snoc {ℓ} :
    {A : Type ℓ} (w : A → ℕ) (xs : List A) (x : A) → weight w (xs ++ x ∷ []) ≡ weight w xs + w x
weight-snoc w [] x = omega arith
weight-snoc w (y ∷ xs) x = omega (arith, weight-snoc w xs x)

module _ {K : Type 0} ⦃keys : Keys K⦄ where
  pub same_false :
      (k l m : K) → keys.same m k ≡ false → keys.same m l ≡ true → keys.same k l ≡ false
  same_false k l m e f = elim (Bool-cases (keys.same k l)) [
    | inr g ↦ g
    | inl g ↦
        let q : m ≡ k = keys.same_eq m l f ∙ sym (keys.same_eq k l g) in
        absurd (true_ne_false (sym (keys.same_self k) ∙ ap (λ x. keys.same x k) (sym q) ∙ e))
  ]

module _ {K A : Type 0} ⦃keys : Keys K⦄ where
  -- The list under a key, empty where there is none.
  abbrev pub values_in : Groups K A → K → List A
  values_in [] k = []
  values_in ((l, xs) ∷ groups) k = if keys.same l k then xs else values_in groups k

  -- No key has two groups.
  abbrev pub Distinct : Groups K A → Type 0
  Distinct [] = Unit
  Distinct ((l, xs) ∷ groups) =
      All (λ (g : K × List A). keys.same l g.0 ≡ false) groups × Distinct groups

  -- The sum of a weight over all elements.
  abbrev pub total : (A → ℕ) → Groups K A → ℕ
  total w [] = 0
  total w ((l, xs) ∷ groups) = weight w xs + total w groups

  abbrev pub NotEmpty : K × List A → Type 0
  NotEmpty (k, xs) = xs ≢ []

  values_in-add_to :
      (k l : K) (x : A) (groups : Groups K A)
      → values_in (add_to k x groups) l
        ≡ (if keys.same k l then values_in groups l ++ x ∷ [] else values_in groups l)
  unfolding add_to
  values_in-add_to k l x [] = refl
  values_in-add_to k l x ((m, xs) ∷ groups) = elim (Bool-cases (keys.same m k)) [
    | inl e ↦
        let q = ap (λ x. keys.same x l) (keys.same_eq m k e) in
        elim (Bool-cases (keys.same k l)) [ inl f ↦ rw (e, q, f) refl | inr f ↦ rw (e, q, f) refl ]
    | inr e ↦ elim (Bool-cases (keys.same m l)) [
      | inl f ↦ rw (e, f, same_false k l m e f) refl
      | inr f ↦ rw (e, f) (values_in-add_to k l x groups)
    ]
  ]

  total-add_to :
      (w : A → ℕ) (k : K) (x : A) (groups : Groups K A)
      → total w (add_to k x groups) ≡ w x + total w groups
  unfolding add_to
  total-add_to w k x [] = omega arith
  total-add_to w k x ((m, xs) ∷ groups) =
      if_both (λ (g : Groups K A). total w g ≡ w x + (weight w xs + total w groups)) (keys.same m k)
        _ _ (λ _. omega (arith, weight-snoc w xs x)) (λ _. omega (arith, total-add_to w k x groups))

  apart-add_to :
      (l k : K) (x : A) (groups : Groups K A)
      → keys.same l k ≡ false
      → All (λ (g : K × List A). keys.same l g.0 ≡ false) groups
      → All (λ (g : K × List A). keys.same l g.0 ≡ false) (add_to k x groups)
  unfolding add_to
  apart-add_to l k x [] e h = (e, tt)
  apart-add_to l k x ((m, xs) ∷ groups) e h =
      if_both (All (λ (g : K × List A). keys.same l g.0 ≡ false)) (keys.same m k) _ _ (λ _. h)
        (λ _. (h.0, apart-add_to l k x groups e h.1))

  Distinct-add_to :
      (k : K) (x : A) (groups : Groups K A) → Distinct groups → Distinct (add_to k x groups)
  unfolding add_to
  Distinct-add_to k x [] h = (tt, tt)
  Distinct-add_to k x ((m, xs) ∷ groups) h =
      if_both Distinct (keys.same m k) _ _ (λ _. h)
        (λ e. (apart-add_to m k x groups e h.0, Distinct-add_to k x groups h.1))

  NotEmpty-add_to :
      (k : K) (x : A) (groups : Groups K A) → All NotEmpty groups → All NotEmpty (add_to k x groups)
  unfolding add_to
  NotEmpty-add_to k x [] h = (snoc_ne_nil [] x, tt)
  NotEmpty-add_to k x ((m, xs) ∷ groups) h =
      if_both (All NotEmpty) (keys.same m k) _ _ (λ _. (snoc_ne_nil xs x, h.1))
        (λ _. (h.0, NotEmpty-add_to k x groups h.1))

  -- Under a group's own key stands its own list.
  pub values_in-Distinct :
      (groups : Groups K A)
      → Distinct groups
      → All (λ (g : K × List A). values_in groups g.0 ≡ g.1) groups
  values_in-Distinct [] h = tt
  values_in-Distinct ((l, xs) ∷ groups) h = (
    rw (keys.same_self l) refl,
    All-zip groups (λ (g : K × List A) e v. rw e v) h.0 (values_in-Distinct groups h.1),
  )

  -- Sorting keeps the total.
  module _ {F : Type 0} ⦃o : Order F⦄ (by : K × List A → F) where
    total-insert_sorted :
        (w : A → ℕ) (g : K × List A) (groups : Groups K A)
        → total w (insert_sorted by g groups) ≡ weight w g.1 + total w groups
    unfolding insert_sorted
    total-insert_sorted w g [] = refl
    total-insert_sorted w g (m ∷ groups) =
        if_both (λ (x : Groups K A). total w x ≡ weight w g.1 + (weight w m.1 + total w groups))
          (le (by g) (by m)) _ _ (λ _. refl) (λ _. omega (arith, total-insert_sorted w g groups))

    pub total-sorted :
        (w : A → ℕ) (groups : Groups K A) → total w (sorted by groups) ≡ total w groups
    unfolding sorted
    total-sorted w [] = refl
    total-sorted w (g ∷ groups) =
        total-insert_sorted w g (sorted by groups) ∙ omega (arith, total-sorted w groups)

module _ {R K A : Type 0} ⦃keys : Keys K⦄ (key : R → K) (value : R → A) where
  -- The rows of a key, in their order.
  abbrev pub rows_of : K → List R → List R
  rows_of k rows = select (λ r. keys.same (key r) k) rows

  group_all-values_in :
      (rows : List R) (groups : Groups K A) (k : K)
      → values_in (group_all key value rows groups) k
        ≡ values_in groups k ++ map value (rows_of k rows)
  unfolding group_all
  group_all-values_in [] groups k = sym (append-nil (values_in groups k))
  group_all-values_in (r ∷ rows) groups k =
      let rest = group_all-values_in rows (add_to (key r) (value r) groups) k in
      let added = values_in-add_to (key r) k (value r) groups in
      elim (Bool-cases (keys.same (key r) k)) [
        | inl e ↦ rw e (
            rest
            ∙ ap (λ l. l ++ map value (rows_of k rows)) (rw e at added)
            ∙ append_assoc (values_in groups k) (value r ∷ []) (map value (rows_of k rows)))
        | inr e ↦ rw e (rest ∙ ap (λ l. l ++ map value (rows_of k rows)) (rw e at added))
      ]

  -- Grouping from nothing: distinct keys, no empty group, and each the values of just its rows.
  pub record Grouped (rows : List R) (groups : Groups K A) : Type 0 where
    pub distinct : Distinct groups
    pub not_empty : All NotEmpty groups
    pub exact : All (λ (g : K × List A). g.1 ≡ map value (rows_of g.0 rows)) groups
    pub all_rows : (w : A → ℕ) → total w groups ≡ weight w (map value rows)

  kept :
      (rows : List R) (groups : Groups K A)
      → Distinct groups
      → All NotEmpty groups
      → Distinct (group_all key value rows groups)
        × All NotEmpty (group_all key value rows groups)
        × ((w : A → ℕ)
            → total w (group_all key value rows groups)
              ≡ total w groups + weight w (map value rows))
  unfolding group_all
  kept [] groups d n = (d, n, λ w. omega arith)
  kept (r ∷ rows) groups d n =
      let (d', n', t') =
        kept rows (add_to (key r) (value r) groups) (Distinct-add_to (key r) (value r) groups d)
          (NotEmpty-add_to (key r) (value r) groups n) in
      (d', n', λ w. omega (arith, t' w, total-add_to w (key r) (value r) groups))

  pub group_all-Grouped : (rows : List R) → Grouped rows (group_all key value rows [])
  group_all-Grouped rows =
      let (d, n, t) = kept rows [] tt tt in
      record {
        distinct = d;
        not_empty = n;
        exact =
            All-map (group_all key value rows [])
              (λ (g : K × List A) e. sym e ∙ group_all-values_in rows [] g.0)
              (values_in-Distinct (group_all key value rows []) d);
        all_rows = λ w. omega (arith, t w);
      }
