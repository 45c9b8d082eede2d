-- ===== src/Recorder/Cpus/Printed.antt =====
-- Lists of CPUs as the kernel prints them and as the recorder gives them to `taskset`.
use matching_machine.Prelude.{
  ℕ, ◌+◌, ◌-◌, ◌*◌, ◌<◌, ◌≡◌, refl, ap, ◌∙◌, false, ◌||◌, some, List, [], ◌∷◌, ◌++◌, ◌==◌, arith,
  if◌then◌else◌, length, map, contains, All,
}
use matching_machine.Recorder.Cpus.{
  Text, split_commas, partition_dash, int_from, int, cpus_from, cpus_between, cpus_of, cpus_in,
  cpu_list,
}

-- A text and the number that it is.
abbrev pub Numeral : Type 0
Numeral = Text × ℕ

abbrev pub IsNumeral : Numeral → Type 0
IsNumeral (t, n) = int t ≡ some n

-- One CPU, or a range of CPUs.
pub data Part : Type 0 where
  one_cpu : Numeral → Part
  between : Numeral → Numeral → Part

abbrev pub IsPart : Part → Type 0
IsPart (one_cpu n) = IsNumeral n
IsPart (between lo hi) = IsNumeral lo × IsNumeral hi

abbrev pub printed : Part → Text
printed (one_cpu n) = n.0
printed (between lo hi) = lo.0 ++ 45 ∷ hi.0

abbrev pub meant : Part → List ℕ
meant (one_cpu n) = n.1 ∷ []
meant (between lo hi) = cpus_from lo.1 (hi.1 + 1 - lo.1)

-- `",".join`, of at least one part
abbrev pub join : Text → List Text → Text
join t [] = t
join t (u ∷ ts) = t ++ 44 ∷ join u ts

abbrev pub all_meant : List Part → List ℕ
all_meant [] = []
all_meant (p ∷ ps) = meant p ++ all_meant ps

int_from-digits : (n m k : ℕ) (t : Text) → k < 48 → int_from n t ≡ some m → contains t k ≡ false
unfolding int_from
int_from-digits n m k [] l h = refl
int_from-digits n m k (c ∷ t) l h = ground (arith, int_from-digits (10 * n + (c - 48)) m k t l)

int-digits : (t : Text) (n k : ℕ) → k < 48 → int t ≡ some n → contains t k ≡ false
unfolding int
int-digits [] n k l h = refl
int-digits (c ∷ t) n k l h = int_from-digits 0 n k (c ∷ t) l h

int-length : (t : Text) (n : ℕ) → int t ≡ some n → (length t == 0) ≡ false
unfolding int
int-length [] n h = cc
int-length (c ∷ t) n h = ground arith

contains-append : (s t : Text) (k : ℕ) → contains (s ++ t) k ≡ (contains s k || contains t k)
contains-append [] t k = refl
contains-append (c ∷ s) t k = ground (arith, contains-append s t k)

split_commas-one : (t : Text) → contains t 44 ≡ false → split_commas t ≡ (t, [])
unfolding split_commas
split_commas-one [] h = refl
split_commas-one (c ∷ t) h = ground (arith, split_commas-one t)

split_commas-append :
    (t u : Text)
    → contains t 44 ≡ false
    → split_commas (t ++ 44 ∷ u) ≡ (t, (split_commas u).0 ∷ (split_commas u).1)
unfolding split_commas
split_commas-append [] u h = refl
split_commas-append (c ∷ t) u h = ground (arith, split_commas-append t u)

split_commas-join :
    (t : Text) (ts : List Text)
    → contains t 44 ≡ false
    → All (λ u. contains u 44 ≡ false) ts
    → split_commas (join t ts) ≡ (t, ts)
split_commas-join t [] h hs = split_commas-one t h
split_commas-join t (u ∷ ts) h hs =
    split_commas-append t (join u ts) h
    ∙ ap (λ p. (t, p.0 ∷ p.1)) (split_commas-join u ts hs.0 hs.1)

partition_dash-one : (t : Text) → contains t 45 ≡ false → partition_dash t ≡ (t, [])
unfolding partition_dash
partition_dash-one [] h = refl
partition_dash-one (c ∷ t) h = ground (arith, partition_dash-one t)

partition_dash-append : (t u : Text) → contains t 45 ≡ false → partition_dash (t ++ 45 ∷ u) ≡ (t, u)
unfolding partition_dash
partition_dash-append [] u h = refl
partition_dash-append (c ∷ t) u h = ground (arith, partition_dash-append t u)

printed-no_comma : (p : Part) → IsPart p → contains (printed p) 44 ≡ false
printed-no_comma (one_cpu (t, n)) h = int-digits t n 44 (omega arith) h
printed-no_comma (between (t, n) (u, m)) h = ground (
  arith,
  contains-append t (45 ∷ u) 44,
  int-digits t n 44 (omega arith) h.0,
  int-digits u m 44 (omega arith) h.1,
)

All-printed : (ps : List Part) → All IsPart ps → All (λ t. contains t 44 ≡ false) (map printed ps)
All-printed [] h = tt
All-printed (p ∷ ps) h = (printed-no_comma p h.0, All-printed ps h.1)

printed-length : (p : Part) → IsPart p → (length (printed p) == 0) ≡ false
printed-length (one_cpu (t, n)) h = int-length t n h
printed-length (between ([], n) (u, m)) h = ground arith
printed-length (between (c ∷ t, n) (u, m)) h = ground arith

-- The CPUs of a part that was split at its dash.
cpus-parted :
    (part lo hi : Text)
    → partition_dash part ≡ (lo, hi)
    → cpus_of part ≡ cpus_between (int lo) (int (if length hi == 0 then lo else hi))
unfolding cpus_of
cpus-parted part lo hi e =
    ap (λ p. cpus_between (int p.0) (int (if length p.1 == 0 then p.0 else p.1))) e

cpus_of-printed : (p : Part) → IsPart p → cpus_of (printed p) ≡ some (meant p)
unfolding cpus_between cpus_from
cpus_of-printed (one_cpu (t, n)) h =
    let single : n + 1 - n ≡ 1 = omega arith in
    cpus-parted t t [] (partition_dash-one t (int-digits t n 45 (omega arith) h))
    ∙ ap (λ v. cpus_between v v) h
    ∙ ap (λ k. some (cpus_from n k)) single
cpus_of-printed (between (t, n) (u, m)) h =
    cpus-parted (t ++ 45 ∷ u) t u (partition_dash-append t u (int-digits t n 45 (omega arith) h.0))
    ∙ ap (λ b. cpus_between (int t) (int (if b then t else u))) (int-length u m h.1)
    ∙ ap (λ v. cpus_between v (int u)) h.0
    ∙ ap (λ v. cpus_between (some n) v) h.1

cpus_in-printed : (ps : List Part) → All IsPart ps → cpus_in (map printed ps) ≡ some (all_meant ps)
unfolding cpus_in
cpus_in-printed [] h = refl
cpus_in-printed (p ∷ ps) h =
    rw (printed-length p h.0, cpus_of-printed p h.0, cpus_in-printed ps h.1) refl

-- The numbers and ranges of a list that is printed with commas are read back as the CPUs that they mean.
pub cpu_list-join :
    (p : Part) (ps : List Part)
    → All IsPart (p ∷ ps)
    → cpu_list (join (printed p) (map printed ps)) ≡ some (all_meant (p ∷ ps))
unfolding cpu_list
cpu_list-join p ps h =
    ap (λ parts. cpus_in (parts.0 ∷ parts.1))
      (split_commas-join (printed p) (map printed ps) (printed-no_comma p h.0) (All-printed ps h.1))
    ∙ cpus_in-printed (p ∷ ps) h
