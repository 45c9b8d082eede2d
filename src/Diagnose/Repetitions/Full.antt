-- ===== src/Diagnose/Repetitions/Full.antt =====
-- What the check of the repetitions means.
use matching_machine.Prelude.{
  ℕ, zero, suc, ◌+◌, ◌≡◌, sym, ◌∙◌, Bool, true, false, ◌&&◌, ◌||◌, List, [], ◌∷◌, ◌==◌, arith, all,
  any, ltb, leb, contains, set_eq, contains-set_eq, if◌then◌else◌,
}
use matching_machine.Recorder.Samples.{Sample}
use matching_machine.Diagnose.Repetitions.{
  Counts, add_count, range_of, count_samples, are_requested,
}

contains-range_of :
    (first n r : ℕ) → contains (range_of first n) r ≡ (leb first r && ltb r (first + n))
unfolding range_of
contains-range_of first zero r = ground arith
contains-range_of first (suc n) r = ground (arith, contains-range_of (suc first) n r)

-- Whether a repetition of a name was counted.
abbrev pub counted : Counts → (name repetition : ℕ) → Bool
counted [] name r = false
counted ((n, reps) ∷ counts) name r = if n == name then contains reps r else counted counts name r

abbrev is_counted : Counts → ℕ → Bool
is_counted [] name = false
is_counted ((n, reps) ∷ counts) name = n == name || is_counted counts name

counted-add_count :
    (name rep : ℕ) (counts : Counts) (m r : ℕ)
    → counted (add_count name rep counts) m r ≡ (counted counts m r || (name == m && rep == r))
unfolding add_count
counted-add_count name rep [] m r = ground arith
counted-add_count name rep ((n, reps) ∷ counts) m r =
    ground (arith, counted-add_count name rep counts m r)

is_counted-add_count :
    (name rep : ℕ) (counts : Counts) (m : ℕ)
    → is_counted (add_count name rep counts) m ≡ (is_counted counts m || name == m)
unfolding add_count
is_counted-add_count name rep [] m = ground arith
is_counted-add_count name rep ((n, reps) ∷ counts) m =
    ground (arith, is_counted-add_count name rep counts m)

counted-full :
    (n : ℕ) (counts : Counts) (m r : ℕ)
    → all (λ c. set_eq c.1 (range_of 0 n)) counts ≡ true
    → is_counted counts m ≡ true
    → counted counts m r ≡ ltb r n
counted-full n [] m r h k = cc
counted-full n ((name, reps) ∷ counts) m r h k = ground (
  arith,
  counted-full n counts m r,
  contains-set_eq reps (range_of 0 n) r,
  contains-range_of 0 n r,
)

module _ {F : Type 0} where
  -- Whether there is a sample of a name and a repetition, and of a name at all.
  abbrev pub has_sample : List (Sample F) → (name repetition : ℕ) → Bool
  has_sample ss m r = any (λ s. s.name == m && s.repetition == r) ss

  abbrev pub has_name : List (Sample F) → ℕ → Bool
  has_name ss m = any (λ s. s.name == m) ss

  counted-count_samples :
      (ss : List (Sample F)) (counts : Counts) (m r : ℕ)
      → counted (count_samples ss counts) m r ≡ (counted counts m r || has_sample ss m r)
  unfolding count_samples
  counted-count_samples [] counts m r = ground arith
  counted-count_samples (s ∷ ss) counts m r = ground (
    arith,
    counted-count_samples ss (add_count s.name s.repetition counts) m r,
    counted-add_count s.name s.repetition counts m r,
  )

  is_counted-count_samples :
      (ss : List (Sample F)) (counts : Counts) (m : ℕ)
      → is_counted (count_samples ss counts) m ≡ (is_counted counts m || has_name ss m)
  unfolding count_samples
  is_counted-count_samples [] counts m = ground arith
  is_counted-count_samples (s ∷ ss) counts m = ground (
    arith,
    is_counted-count_samples ss (add_count s.name s.repetition counts) m,
    is_counted-add_count s.name s.repetition counts m,
  )

  -- If the repetitions are those requested, a benchmark that has a sample has one for each number below
  -- the number requested and for no other.
  pub are_requested-has_sample :
      (repetitions : ℕ) (ss : List (Sample F)) (m r : ℕ)
      → are_requested repetitions ss ≡ true
      → has_name ss m ≡ true
      → has_sample ss m r ≡ ltb r repetitions
  unfolding are_requested
  are_requested-has_sample repetitions ss m r h k =
      let full : all (λ c. set_eq c.1 (range_of 0 repetitions)) (count_samples ss []) ≡ true =
        ground arith in
      let known = is_counted-count_samples ss [] m ∙ k in
      sym (counted-count_samples ss [] m r)
      ∙ counted-full repetitions (count_samples ss []) m r full known
