-- ===== src/Report/Ranks/Runs.antt =====
-- The loop of `ranks`, a run of equal values at a time: what one round writes, and why that is the
-- rank by counting.
use matching_machine.Prelude.{
  ℕ, zero, suc, ◌+◌, ◌*◌, ◌≤◌, ◌<◌, ◌≡◌, ◌≢◌, refl, sym, ◌∙◌, ap, subst, inl, inr, Bool, true, List,
  [], ◌∷◌, ◌++◌, some, arith, length, length-append, get_elem?, count, count-append, count-All,
  count-none, All, All-map, All-append, All-of_append, All-zip, Bool-cases,
}
use matching_machine.Report.Floats.{Order, le, lt, eqv, le_refl}
use matching_machine.Report.Sort.{IsSorted}
use matching_machine.Report.Ranks.Writes.{
  IsAbsent, AreDistinct, AreDistinct-append, write_all-absent, length-write_all, write_all-writes,
}
use matching_machine.Report.Ranks.{Entries, write_all, run_of, after_run, rank_runs}

module _ {F : Type 0} ⦃o : Order F⦄ where
  run-append : (v : F) (rest : Entries F) → run_of v rest ++ after_run v rest ≡ rest
  unfolding run_of after_run
  run-append v [] = refl
  run-append v (e ∷ rest) = ground (arith, run-append v rest)

  run_of-eqv : (v : F) (rest : Entries F) → All (λ e. eqv e.1 v ≡ true) (run_of v rest)
  unfolding run_of
  run_of-eqv v [] = tt
  run_of-eqv v (e ∷ rest) = elim (Bool-cases (eqv e.1 v)) [
    | inl q ↦ rw (q, run_of) (q, run_of-eqv v rest)
    | inr q ↦ rw (q, run_of) tt
  ]

  after_run-lt :
      (v : F) (rest : Entries F)
      → All (λ e. le v e.1 ≡ true) rest
      → IsSorted (λ e. e.1) rest
      → All (λ e. lt v e.1 ≡ true) (after_run v rest)
  unfolding after_run
  after_run-lt v [] h s = tt
  after_run-lt v (e ∷ rest) h s = elim (Bool-cases (eqv e.1 v)) [
    | inl q ↦ rw (q, after_run) (after_run-lt v rest h.1 s.1)
    | inr q ↦
        rw (q, after_run)
          (ground arith, All-map rest (λ x p. ground (arith, o.le_trans e.1 x.1 v)) s.0)
  ]

  -- The rank of `v` when `i` entries stand below all of `rest`.
  abbrev pub place : ℕ → Entries F → F → ℕ
  place i rest v = 2 * i + 2 * count (λ e. lt e.1 v) rest + count (λ e. eqv e.1 v) rest + 1

  count-split :
      (p : F → Bool) (k : ℕ) (x : F) (run after : Entries F)
      → count (λ e. p e.1) ((k, x) ∷ run ++ after)
        ≡ count (λ e. p e.1) ((k, x) ∷ run) + count (λ e. p e.1) after
  count-split p k x run after = count-append (λ e. p e.1) ((k, x) ∷ run) after

  place-same :
      (i k : ℕ) (x v : F) (run after : Entries F)
      → eqv v x ≡ true
      → All (λ e. eqv e.1 x ≡ true) run
      → All (λ e. lt x e.1 ≡ true) after
      → place i ((k, x) ∷ run ++ after) v ≡ i + (i + length run) + 2
  place-same i k x v run after q equal above = omega (
    arith,
    count-split (λ w. lt w v) k x run after,
    count-split (λ w. eqv w v) k x run after,
    count-none (λ e. lt e.1 v) ((k, x) ∷ run)
        (ground arith, All-map run (λ e p. ground (arith, o.le_trans v x e.1)) equal),
    count-none (λ e. lt e.1 v) after
        (All-map after
          (λ e p. ground (arith, o.le_trans e.1 v x, o.le_total e.1 x, o.le_trans v x e.1)) above),
    count-All (λ e. eqv e.1 v) ((k, x) ∷ run)
        (
          ground arith,
          All-map run (λ e p. ground (arith, o.le_trans v x e.1, o.le_trans e.1 x v)) equal,
        ),
    count-none (λ e. eqv e.1 v) after
        (All-map after (λ e p. ground (arith, o.le_trans e.1 v x)) above),
  )

  place-after :
      (i k : ℕ) (x v : F) (run after : Entries F)
      → lt x v ≡ true
      → All (λ e. eqv e.1 x ≡ true) run
      → place i ((k, x) ∷ run ++ after) v ≡ place (i + length run + 1) after v
  place-after i k x v run after q equal = omega (
    arith,
    count-split (λ w. lt w v) k x run after,
    count-split (λ w. eqv w v) k x run after,
    count-All (λ e. lt e.1 v) ((k, x) ∷ run)
        (ground arith, All-map run (λ e p. ground (arith, o.le_trans v e.1 x)) equal),
    count-none (λ e. eqv e.1 v) ((k, x) ∷ run)
        (ground arith, All-map run (λ e p. ground (arith, o.le_trans v e.1 x)) equal),
  )

  IsSorted-append : (xs ys : Entries F) → IsSorted (λ e. e.1) (xs ++ ys) → IsSorted (λ e. e.1) ys
  IsSorted-append [] ys h = h
  IsSorted-append (x ∷ xs) ys h = IsSorted-append xs ys h.1

  rank_runs-absent :
      (k fuel i : ℕ) (rest : Entries F) (out : List ℕ)
      → IsAbsent k rest
      → get_elem? (rank_runs fuel i rest out) k ≡ get_elem? out k
  unfolding rank_runs
  rank_runs-absent k zero i rest out h = refl
  rank_runs-absent k (suc fuel) i [] out h = refl
  rank_runs-absent k (suc fuel) i (e ∷ rest) out h =
      let run = run_of e.1 rest in
      let r = i + (i + length run) + 2 in
      let apart =
        All-of_append (λ x. k ≢ x.0) run (after_run e.1 rest) (rw (run-append e.1 rest) h.1) in
      rank_runs-absent k fuel (i + length run + 1) (after_run e.1 rest) (write_all (e ∷ run) r out)
        apart.1
      ∙ write_all-absent k r (e ∷ run) out (h.0, apart.0)

  pub length-rank_runs :
      (fuel i : ℕ) (rest : Entries F) (out : List ℕ)
      → length (rank_runs fuel i rest out) ≡ length out
  unfolding rank_runs
  length-rank_runs zero i rest out = refl
  length-rank_runs (suc fuel) i [] out = refl
  length-rank_runs (suc fuel) i (e ∷ rest) out =
      let run = run_of e.1 rest in
      let r = i + (i + length run) + 2 in
      length-rank_runs fuel (i + length run + 1) (after_run e.1 rest) (write_all (e ∷ run) r out)
      ∙ length-write_all r (e ∷ run) out

  -- One round, given what the rounds behind it write.
  round-place :
      (fuel i : ℕ) (x : ℕ × F) (run after : Entries F) (out : List ℕ)
      → AreDistinct (x ∷ run ++ after)
      → All (λ e. e.0 < length out) (x ∷ run)
      → All (λ e. eqv e.1 x.1 ≡ true) run
      → All (λ e. lt x.1 e.1 ≡ true) after
      → let j = i + length run in
        let final = rank_runs fuel (j + 1) after (write_all (x ∷ run) (i + j + 2) out) in
        All (λ e. get_elem? final e.0 ≡ some (place (j + 1) after e.1)) after
        → All (λ e. get_elem? final e.0 ≡ some (place i (x ∷ run ++ after) e.1)) (x ∷ run ++ after)
  round-place fuel i x run after out d inside equal above ih =
      let j = i + length run in
      let r = i + j + 2 in
      let wrote = write_all (x ∷ run) r out in
      let place_here = λ (e : ℕ × F). some (place i (x ∷ run ++ after) e.1) in
      let final = rank_runs fuel (j + 1) after wrote in
      let both : All (λ e. (eqv e.1 x.1 ≡ true) × IsAbsent e.0 after) (x ∷ run) =
        All-zip (x ∷ run) (λ e q absent. (q, absent)) (ground (arith, le_refl x.1), equal)
          (AreDistinct-append (x ∷ run) after d).1 in
      All-append (λ e. get_elem? final e.0 ≡ place_here e) (x ∷ run) after
        (All-zip (x ∷ run)
          (λ e b w.
            rank_runs-absent e.0 fuel (j + 1) after wrote b.1
            ∙ w
            ∙ ap some (sym (place-same i x.0 x.1 e.1 run after b.0 equal above)))
          both (write_all-writes r (x ∷ run) out inside))
        (All-zip after (λ e q h. h ∙ ap some (sym (place-after i x.0 x.1 e.1 run after q equal)))
          above ih)

  length-after_run : (v : F) (rest : Entries F) → length (after_run v rest) ≤ length rest
  length-after_run v rest =
      omega (arith, ap length (run-append v rest), length-append (run_of v rest) (after_run v rest))

  -- With fuel for each entry, every index is given the rank of its value.
  pub rank_runs-place :
      (fuel i : ℕ) (rest : Entries F) (out : List ℕ)
      → length rest ≤ fuel
      → IsSorted (λ e. e.1) rest
      → AreDistinct rest
      → All (λ e. e.0 < length out) rest
      → All (λ e. get_elem? (rank_runs fuel i rest out) e.0 ≡ some (place i rest e.1)) rest
  unfolding rank_runs
  rank_runs-place fuel i [] out enough s d inside = tt
  rank_runs-place zero i (x ∷ rest) out enough s d inside = absurd (omega arith)
  rank_runs-place (suc fuel) i (x ∷ rest) out enough s d inside =
      let run = run_of x.1 rest in
      let after = after_run x.1 rest in
      let whole = run-append x.1 rest in
      let j = i + length run in
      let wrote = write_all (x ∷ run) (i + j + 2) out in
      let d' = subst (λ l. AreDistinct (x ∷ l)) (sym whole) d in
      let inside' =
        All-of_append (λ y. y.0 < length out) (x ∷ run) after
          (subst (λ l. All (λ y. y.0 < length out) (x ∷ l)) (sym whole) inside) in
      let ih =
        rank_runs-place fuel (j + 1) after wrote (omega (arith, length-after_run x.1 rest))
          (IsSorted-append run after (subst (IsSorted (λ y. y.1)) (sym whole) s.1))
          (AreDistinct-append (x ∷ run) after d').0
          (All-map after (λ y p. omega (arith, length-write_all (i + j + 2) (x ∷ run) out, p))
            inside'.1) in
      subst
        (λ l.
          All (λ y. get_elem? (rank_runs fuel (j + 1) after wrote) y.0 ≡ some (place i (x ∷ l) y.1))
            (x ∷ l))
        whole
        (round-place fuel i x run after out d' inside'.0 (run_of-eqv x.1 rest)
          (after_run-lt x.1 rest s.0 s.1) ih)
