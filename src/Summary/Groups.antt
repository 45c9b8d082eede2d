-- ===== src/Summary/Groups.antt =====
-- The groups that the samples of a study make.
use matching_machine.Effects.{Result, ok, raise}
use matching_machine.Prelude.{
  ℕ, ◌+◌, ◌≡◌, refl, sym, subst, ap, ◌∙◌, Bool, true, false, ◌&&◌, ◌||◌, not, Option, none, some,
  List, [], ◌∷◌, ◌++◌, arith, ◌==◌, any, if◌then◌else◌, length, length-append, count, All,
  All-append, Bool-cases, inl, inr,
}
use matching_machine.Summary.{
  Key, same_key, duplicate_repetition, invalid_time, LaunchRow, Sample, Group, Fault, numbers,
  has_key, is_group, put_time, add_sample, add_samples,
}

abbrev pub distinct : List ℕ → Bool
distinct [] = true
distinct (n ∷ ns) = not (any (λ m. m == n) ns) && distinct ns

any-snoc :
    (ns : List ℕ) (m n : ℕ) → any (λ k. k == m) (ns ++ n ∷ []) ≡ (any (λ k. k == m) ns || n == m)
any-snoc [] m n = ground arith
any-snoc (k ∷ ns) m n = ground (arith, any-snoc ns m n)

distinct-snoc :
    (ns : List ℕ) (n : ℕ)
    → distinct ns ≡ true
    → any (λ m. m == n) ns ≡ false
    → distinct (ns ++ n ∷ []) ≡ true
distinct-snoc [] n h e = ground arith
distinct-snoc (k ∷ ns) n h e = ground (arith, any-snoc ns k n, distinct-snoc ns n)

same_key-eq : (k l : Key) → same_key k l ≡ true → k ≡ l
same_key-eq k l h = ground arith

module _ {F : Type 0} where
  -- All the times of all groups.
  abbrev pub total : List (Group F) → ℕ
  total [] = 0
  total (g ∷ groups) = length g.times + total groups

  numbers-append : (xs ys : List (ℕ × F)) → numbers (xs ++ ys) ≡ numbers xs ++ numbers ys
  numbers-append [] ys = refl
  numbers-append (x ∷ xs) ys = ap (◌∷◌ x.0) (numbers-append xs ys)

module _ {F : Type 0} (is_time : F → Bool) (launches : List LaunchRow) where
  -- A group belongs to a recorded launch, and has one time for each of its repetitions, a valid one.
  abbrev pub IsSound : Group F → Type 0
  IsSound g =
      (has_key launches g.key ≡ true)
      × (distinct (numbers g.times) ≡ true)
      × All (λ t. is_time t.1 ≡ true) g.times

  abbrev Put : ℕ → Option (List (Group F)) → Type 0
  Put n none = Unit
  Put n (some groups) = All IsSound groups × (total groups ≡ n)

  Put-behind :
      (g : Group F) (m n : ℕ) (o : Option (List (Group F)))
      → m ≡ length g.times + n
      → IsSound g
      → Put n o
      → Put m (elim o [ none ↦ none | some groups ↦ some (g ∷ groups) ])
  Put-behind g m n none e s p = tt
  Put-behind g m n (some groups) e s p = ((s, p.0), omega (arith, p.1))

  put_time-Put :
      (key : Key) (benchmark index : ℕ) (time : F) (groups : List (Group F))
      → has_key launches key ≡ true
      → is_time time ≡ true
      → All IsSound groups
      → Put (total groups + 1) (put_time key benchmark index time groups)
  unfolding put_time
  put_time-Put key benchmark index time [] k t h = (((k, refl, (t, tt)), tt), refl)
  put_time-Put key benchmark index time (g ∷ groups) k t h =
      elim (Bool-cases (is_group key benchmark g)) [
        | inl e ↦ elim (Bool-cases (any (λ n. n == index) (numbers g.times))) [
          | inl d ↦ rw (e, d) tt
          | inr d ↦
              let append = numbers-append g.times ((index, time) ∷ []) in
              let apart = distinct-snoc (numbers g.times) index h.0.1 d in
              let valid =
                All-append (λ u. is_time u.1 ≡ true) g.times ((index, time) ∷ []) h.0.2 (t, tt) in
              rw (e, d)
                (
                  ((h.0.0, ap distinct append ∙ apart, valid), h.1),
                  omega (arith, length-append g.times ((index, time) ∷ [])),
                )
        ]
        | inr e ↦ rw e (
            Put-behind g _ (total groups + 1) _ (omega arith) h.0
              (put_time-Put key benchmark index time groups k t h.1))
      ]

  -- The samples that are not of a warm-up.
  abbrev pub counted : List (Sample F) → ℕ
  counted samples = count (λ s. s.warmup == 0) samples

  abbrev pub Added : ℕ → Result Fault (List (Group F)) → Type 0
  Added n (ok groups) = All IsSound groups × (total groups ≡ n)
  Added n (raise e) = Unit

  store-Added :
      (n : ℕ) (time : F) (o : Option (List (Group F)))
      → (is_time time ≡ true → Put n o)
      → Added n (elim o [
        | none ↦ raise duplicate_repetition
        | some groups ↦ if is_time time then ok groups else raise invalid_time
      ])
  store-Added n time none p = tt
  store-Added n time (some groups) p = elim (Bool-cases (is_time time)) [
    | inl e ↦ rw e (p e)
    | inr e ↦ rw e tt
  ]

  add_sample-Added :
      (s : Sample F) (groups : List (Group F))
      → All IsSound groups
      → Added
          (total groups + (if s.warmup == 0 then 1 else 0))
          (add_sample is_time launches s groups)
  unfolding add_sample
  add_sample-Added s groups h = elim (Bool-cases (has_key launches s.key)) [
    | inr e ↦ rw e tt
    | inl e ↦ elim (Bool-cases (s.warmup == 0)) [
      | inr w ↦ rw (e, w) (h, omega arith)
      | inl w ↦
          rw (e, w)
            (store-Added _ s.time _
              (λ t. put_time-Put s.key s.benchmark s.repetition s.time groups e t h))
    ]
  ]

  add_rest-Added :
      (samples : List (Sample F)) (m n : ℕ) (r : Result Fault (List (Group F)))
      → m ≡ n + counted samples
      → ((groups : List (Group F))
          → All IsSound groups
          → Added (total groups + counted samples) (add_samples is_time launches samples groups))
      → Added n r
      → Added m
          (elim r [ ok groups ↦ add_samples is_time launches samples groups | raise e ↦ raise e ])
  add_rest-Added samples m n (ok groups) q rest a =
      let eq : m ≡ total groups + counted samples = omega (arith, q, a.1) in
      subst (λ k. Added k (add_samples is_time launches samples groups)) (sym eq) (rest groups a.0)
  add_rest-Added samples m n (raise e) q rest a = tt

  pub add_samples-Added :
      (samples : List (Sample F)) (groups : List (Group F))
      → All IsSound groups
      → Added (total groups + counted samples) (add_samples is_time launches samples groups)
  unfolding add_samples
  add_samples-Added [] groups h = (h, omega arith)
  add_samples-Added (s ∷ samples) groups h =
      add_rest-Added samples _ _ _ (ground arith) (add_samples-Added samples)
        (add_sample-Added s groups h)
