-- ===== src/Summary/Complete.antt =====
-- What a study is that passes the checks.
use matching_machine.Effects.{Result, ok, raise}
use matching_machine.Prelude.{
  ℕ, ◌+◌, ◌-◌, ◌<◌, ◌≡◌, refl, Bool, true, false, not, Option, none, some, List, [], ◌∷◌, arith,
  ◌==◌, any, all, ltb, ltb→lt, All, Bool-cases, inl, inr, set_eq,
}
use matching_machine.Summary.{
  LaunchRow, Sample, Group, Fault, Environment, or_default, numbers, range_from, bounds_of,
  has_duplicates, add_samples, is_full, has_samples, check_groups, check_launches, group_samples,
  is_false, summarize,
}
use matching_machine.Summary.Groups.{IsSound, Added, total, counted, add_samples-Added}

all-All : {A : Type 0} (p : A → Bool) (xs : List A) → all p xs ≡ true → All (λ x. p x ≡ true) xs
all-All p [] h = tt
all-All p (x ∷ xs) h = (ground arith, all-All p xs (ground arith))

All-of_any :
    {A : Type 0} (p : A → Bool) (xs : List A)
    → any (λ x. not (p x)) xs ≡ false
    → All (λ x. p x ≡ true) xs
All-of_any p [] h = tt
All-of_any p (x ∷ xs) h = (ground arith, All-of_any p xs (ground arith))

module _ {F : Type 0} (is_time : F → Bool) (samples : List (Sample F))
    (launches : List LaunchRow) where
  -- The launches of a study differ, all ended well, and all have samples.
  abbrev pub AreGoodLaunches : List (Group F) → Type 0
  AreGoodLaunches groups =
      (has_duplicates launches ≡ false)
      × All (λ r. (r.exit_status == 0) ≡ true) launches
      × All (λ r. has_samples groups r ≡ true) launches

  -- Every group is sound and has just the repetitions that count, and no counted sample is missing.
  abbrev pub AreGoodGroups : (expected warmup : ℕ) → List (Group F) → Type 0
  AreGoodGroups expected warmup groups =
      All (IsSound is_time launches) groups
      × All (λ g. set_eq (numbers g.times) (range_from warmup (expected - warmup)) ≡ true) groups
      × (total groups ≡ counted is_time launches samples)

  abbrev pub IsComplete : (expected warmup : ℕ) → Result Fault (List (Group F)) → Type 0
  IsComplete expected warmup (raise e) = Unit
  IsComplete expected warmup (ok groups) =
      AreGoodLaunches groups × AreGoodGroups expected warmup groups

  check_groups-IsComplete :
      (expected warmup : ℕ) (groups : List (Group F))
      → has_duplicates launches ≡ false
      → All (λ r. (r.exit_status == 0) ≡ true) launches
      → All (IsSound is_time launches) groups
      → total groups ≡ counted is_time launches samples
      → IsComplete expected warmup (check_groups expected warmup launches groups)
  unfolding check_groups is_full
  check_groups-IsComplete expected warmup groups d x s t =
      elim (Bool-cases (all (is_full expected warmup) groups)) [
        | inr e ↦ rw e tt
        | inl e ↦ elim (Bool-cases (all (has_samples groups) launches)) [
          | inr f ↦ rw (e, f) tt
          | inl f ↦
              rw (e, f)
                (
                  (d, x, all-All (has_samples groups) launches f),
                  (s, all-All (is_full expected warmup) groups e, t),
                )
        ]
      ]

  check_launches-none :
      check_launches samples launches ≡ none
      → (has_duplicates launches ≡ false) × (any (λ r. not (r.exit_status == 0)) launches ≡ false)
  unfolding check_launches
  check_launches-none h = ground arith

  check-Added-IsComplete :
      (expected warmup : ℕ) (r : Result Fault (List (Group F)))
      → has_duplicates launches ≡ false
      → All (λ r. (r.exit_status == 0) ≡ true) launches
      → Added is_time launches (0 + counted is_time launches samples) r
      → IsComplete expected warmup
          (elim r [ raise e ↦ raise e | ok groups ↦ check_groups expected warmup launches groups ])
  check-Added-IsComplete expected warmup (raise e) d x a = tt
  check-Added-IsComplete expected warmup (ok groups) d x a =
      check_groups-IsComplete expected warmup groups d x a.0 (omega (arith, a.1))

  check_all-IsComplete :
      (expected warmup : ℕ) (o : Option Fault)
      → check_launches samples launches ≡ o
      → IsComplete expected warmup (elim o [
        | some e ↦ raise e
        | none ↦ elim (add_samples is_time launches samples []) [
          | raise e ↦ raise e
          | ok groups ↦ check_groups expected warmup launches groups
        ]
      ])
  check_all-IsComplete expected warmup (some e) q = tt
  check_all-IsComplete expected warmup none q =
      let (d, x) = check_launches-none q in
      check-Added-IsComplete expected warmup _ d (All-of_any (λ r. r.exit_status == 0) launches x)
        (add_samples-Added is_time launches samples [] tt)

  group_samples-IsComplete :
      (expected warmup : ℕ)
      → IsComplete expected warmup (group_samples is_time expected warmup samples launches)
  unfolding group_samples
  group_samples-IsComplete expected warmup = check_all-IsComplete expected warmup _ refl

  -- The design of the study is valid and the study is complete by it.
  abbrev pub IsAccepted : Environment → Result Fault (List (Group F)) → Type 0
  IsAccepted env (raise e) = Unit
  IsAccepted env (ok groups) =
      (expected : ℕ) × (warmup : ℕ) × (or_default 5 env.repetitions ≡ some expected)
      × (or_default 0 env.warmup ≡ some warmup)
      × (warmup < expected)
      × AreGoodLaunches groups
      × AreGoodGroups expected warmup groups

  accept :
      (env : Environment) (expected warmup : ℕ)
      → or_default 5 env.repetitions ≡ some expected
      → or_default 0 env.warmup ≡ some warmup
      → warmup < expected
      → (r : Result Fault (List (Group F))) → IsComplete expected warmup r
      → IsAccepted env r
  accept env expected warmup p q h (raise e) c = tt
  accept env expected warmup p q h (ok groups) c = (expected, warmup, p, q, h, c.0, c.1)

  bounds_of-IsAccepted :
      (env : Environment) (e w : Option ℕ)
      → or_default 5 env.repetitions ≡ e
      → or_default 0 env.warmup ≡ w
      → IsAccepted env (elim (bounds_of e w) [
        | raise f ↦ raise f
        | ok (expected, warmup) ↦ group_samples is_time expected warmup samples launches
      ])
  unfolding bounds_of
  bounds_of-IsAccepted env none w p q = tt
  bounds_of-IsAccepted env (some e) none p q = tt
  bounds_of-IsAccepted env (some e) (some w) p q = elim (Bool-cases (ltb w e)) [
    | inr h ↦ rw h tt
    | inl h ↦ rw h (accept env e w p q (ltb→lt w e h) _ (group_samples-IsComplete e w))
  ]

  -- A study that `summarize` accepts has a number of repetitions and a smaller number of warm-ups.
  -- Its launches differ from each other, all ended with status zero, and each has samples. Each
  -- group of times is of one of these launches, has a valid time for each repetition behind the
  -- warm-up and no other, and no repetition twice, and the groups hold as many times as the study
  -- has samples outside its warm-ups.
  pub summarize-IsAccepted :
      (env : Environment) → IsAccepted env (summarize is_time env samples launches)
  unfolding summarize
  summarize-IsAccepted env = elim (Bool-cases (is_false env.complete)) [
    | inl h ↦ rw h tt
    | inr h ↦ rw h (bounds_of-IsAccepted env _ _ refl refl)
  ]
