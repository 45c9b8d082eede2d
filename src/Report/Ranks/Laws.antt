-- ===== src/Report/Ranks/Laws.antt =====
-- `ranks` returns the rank by counting of each value, and what follows from that.
use matching_machine.Prelude.{
  ℕ, suc, ◌+◌, ◌-◌, ◌*◌, ◌≤◌, ◌<◌, ◌≡◌, ◌≢◌, refl, sym, ◌∙◌, ap, Bool, List, [], ◌∷◌, map, some,
  arith, length, get_elem?, replicate, length-replicate, count, All, All-map, All-zip, Bool-cases,
  inl, inr,
}
use matching_machine.Report.Floats.{Order, le, lt, eqv}
use matching_machine.Report.Sort.{
  sorted, insert_sorted, sorted-IsSorted, All-sorted, All-of_sorted, All-insert_sorted,
  count-sorted, length-sorted,
}
use matching_machine.Report.Ranks.{Entries, enumerate, rank_runs, ranks}
use matching_machine.Report.Ranks.Counts.{rank_of, sum, sum-rank_of}
use matching_machine.Report.Ranks.Writes.{IsAbsent, AreDistinct}
use matching_machine.Report.Ranks.Runs.{place, rank_runs-place, length-rank_runs}

module _ {F : Type 0} where
  enumerate_bounds :
      (i : ℕ) (vs : List F) → All (λ e. (i ≤ e.0) × (e.0 < i + length vs)) (enumerate i vs)
  enumerate_bounds i [] = tt
  enumerate_bounds i (v ∷ vs) = (
    (omega arith, omega arith),
    All-map (enumerate (suc i) vs) (λ e h. (omega arith, omega arith))
        (enumerate_bounds (suc i) vs),
  )

  enumerate-AreDistinct : (i : ℕ) (vs : List F) → AreDistinct (enumerate i vs)
  enumerate-AreDistinct i [] = tt
  enumerate-AreDistinct i (v ∷ vs) = (
    All-map (enumerate (suc i) vs) (λ e h q. omega (arith, h.0)) (enumerate_bounds (suc i) vs),
    enumerate-AreDistinct (suc i) vs,
  )

  count-enumerate :
      (p : F → Bool) (i : ℕ) (vs : List F) → count (λ e. p e.1) (enumerate i vs) ≡ count p vs
  count-enumerate p i [] = refl
  count-enumerate p i (v ∷ vs) = ground (arith, count-enumerate p (suc i) vs)

  length-enumerate : (i : ℕ) (vs : List F) → length (enumerate i vs) ≡ length vs
  length-enumerate i [] = refl
  length-enumerate i (v ∷ vs) = ap suc (length-enumerate (suc i) vs)

  -- A list that holds `f v` at the index of each `v` is the map.
  eq-map_of_entries :
      (f : F → ℕ) (i : ℕ) (vs : List F) (out : List ℕ)
      → length out ≡ length vs
      → All (λ e. get_elem? out (e.0 - i) ≡ some (f e.1)) (enumerate i vs)
      → out ≡ map f vs
  eq-map_of_entries f i [] [] q h = refl
  eq-map_of_entries f i [] (x ∷ out) q h = absurd (omega arith)
  eq-map_of_entries f i (v ∷ vs) [] q h = absurd (omega arith)
  eq-map_of_entries f i (v ∷ vs) (x ∷ out) q h =
      let i-i : i - i ≡ 0 = omega arith in
      let head : some x ≡ some (f v) = rw i-i at h.0 in
      let next : (e : ℕ × F) → suc i ≤ e.0 → e.0 - i ≡ suc (e.0 - suc i) = λ e l. omega arith in
      let rest : All (λ e. get_elem? out (e.0 - suc i) ≡ some (f e.1)) (enumerate (suc i) vs) =
        All-zip (enumerate (suc i) vs)
          (λ e b here. sym (ap (get_elem? (x ∷ out)) (next e b.0)) ∙ here)
          (enumerate_bounds (suc i) vs) h.1 in
      cc (head, eq-map_of_entries f (suc i) vs out (omega arith) rest)

module _ {F : Type 0} ⦃o : Order F⦄ where
  insert_sorted-AreDistinct :
      (x : ℕ × F) (es : Entries F)
      → IsAbsent x.0 es
      → AreDistinct es
      → AreDistinct (insert_sorted (λ e. e.1) x es)
  unfolding insert_sorted
  insert_sorted-AreDistinct x [] a d = (tt, tt)
  insert_sorted-AreDistinct x (e ∷ es) a d = elim (Bool-cases (le x.1 e.1)) [
    | inl q ↦ rw (q, insert_sorted) (a, d)
    | inr q ↦
        rw (q, insert_sorted)
          (
            All-insert_sorted (λ e. e.1) (λ y. e.0 ≢ y.0) x es (λ r. a.0 (sym r)) d.0,
            insert_sorted-AreDistinct x es a.1 d.1,
          )
  ]

  sorted-AreDistinct : (es : Entries F) → AreDistinct es → AreDistinct (sorted (λ e. e.1) es)
  unfolding sorted
  sorted-AreDistinct [] d = tt
  sorted-AreDistinct (e ∷ es) d =
      insert_sorted-AreDistinct e (sorted (λ e. e.1) es)
        (All-sorted (λ e. e.1) (λ y. e.0 ≢ y.0) es d.0) (sorted-AreDistinct es d.1)

  place-sorted :
      (values : List F) (v : F)
      → place 0 (sorted (λ e. e.1) (enumerate 0 values)) v ≡ rank_of values v
  place-sorted values v = omega (
    arith,
    count-sorted (λ e. e.1) (λ e. lt e.1 v) (enumerate 0 values),
    count-sorted (λ e. e.1) (λ e. eqv e.1 v) (enumerate 0 values),
    count-enumerate (λ w. lt w v) 0 values,
    count-enumerate (λ w. eqv w v) 0 values,
  )

  -- The loop over the sorted values gives each value its rank by counting: the number of smaller
  -- values plus half the number of equal ones, itself among them, plus one half (all doubled here).
  pub ranks-rank_of : (values : List F) → ranks values ≡ map (rank_of values) values
  unfolding ranks
  ranks-rank_of values =
      let key = λ (e : ℕ × F). e.1 in
      let entries = enumerate 0 values in
      let zeros : List ℕ = replicate (length values) 0 in
      let final = rank_runs (length values) 0 (sorted key entries) zeros in
      let inside : All (λ e. e.0 < length zeros) entries =
        All-map entries (λ e b. omega (arith, b.1, length-replicate {A = ℕ} (length values) 0))
          (enumerate_bounds 0 values) in
      let placed =
        All-of_sorted key (λ e. get_elem? final e.0 ≡ some (place 0 (sorted key entries) e.1))
          entries
          (rank_runs-place (length values) 0 (sorted key entries) zeros
            (omega (arith, length-sorted key entries, length-enumerate 0 values))
            (sorted-IsSorted key entries)
            (sorted-AreDistinct entries (enumerate-AreDistinct 0 values))
            (All-sorted key (λ e. e.0 < length zeros) entries inside)) in
      eq-map_of_entries (rank_of values) 0 values final
        (length-rank_runs (length values) 0 (sorted key entries) zeros
          ∙ length-replicate {A = ℕ} (length values) 0)
        (All-map entries
          (λ e h. ap (get_elem? final) (omega arith) ∙ h ∙ ap some (place-sorted values e.1))
          placed)

  -- The ranks of n values sum up to n(n + 1) / 2, ties or not; the model holds them doubled.
  sum-ranks : (values : List F) → sum (ranks values) ≡ length values * (length values + 1)
  sum-ranks values = ap sum (ranks-rank_of values) ∙ sum-rank_of values
