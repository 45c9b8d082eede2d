-- ===== src/Engine/Pool/Chain.antt =====
-- The free list as a chain of slots.
use matching_machine.Prelude.{
  ℕ, zero, suc, ◌+◌, ◌<◌, ◌≡◌, ◌≢◌, refl, ap, ◌∙◌, Option, none, some, List, [], ◌∷◌, get_elem?,
  get_elem?-set_ne, set, length, ltb, leb, ◌&&◌, arith, if◌then◌else◌,
}
use matching_machine.Engine.Pool.{links_from, occurrences}

-- The slots that a list of links reaches from its head.
abbrev pub Links : List (Option ℕ) → Option ℕ → List ℕ → Type 0
Links links head [] = head ≡ none
Links links head (i ∷ chain) =
    (head ≡ some i) × ((n : Option ℕ) × (get_elem? links i ≡ some n) × Links links n chain)

-- A write outside of the chain does not change it.
pub Links-set :
    (links : List (Option ℕ)) (head : Option ℕ) (chain : List ℕ) (i : ℕ) (v : Option ℕ)
    → occurrences i chain ≡ 0
    → Links links head chain
    → Links (set links i v) head chain
Links-set links head [] i v e h = h
Links-set links head (j ∷ chain) i v e (here, (n, at, rest)) =
    let apart : i ≢ j = λ q. ground arith in
    (
      here,
      (n, get_elem?-set_ne links i j v apart ∙ at, Links-set links n chain i v (ground arith) rest),
    )

abbrev pub range_from : (i n : ℕ) → List ℕ
range_from i zero = []
range_from i (suc n) = i ∷ range_from (suc i) n

pub length-range_from : (i n : ℕ) → length (range_from i n) ≡ n
length-range_from i zero = refl
length-range_from i (suc n) = ap suc (length-range_from (suc i) n)

pub occurrences-range_from :
    (x i n : ℕ) → occurrences x (range_from i n) ≡ (if leb i x && ltb x (i + n) then 1 else 0)
occurrences-range_from x i zero = ground arith
occurrences-range_from x i (suc n) = ground (arith, occurrences-range_from x (suc i) n)

pub length-links_from : (i n : ℕ) → length (links_from i n) ≡ n
unfolding links_from
length-links_from i zero = refl
length-links_from i (suc zero) = refl
length-links_from i (suc (suc n)) = ap suc (length-links_from (suc i) (suc n))

links_from-inner :
    (i k n : ℕ) → suc k < n → get_elem? (links_from i n) k ≡ some (some (suc (i + k)))
unfolding links_from
links_from-inner i k zero h = absurd (omega arith)
links_from-inner i k (suc zero) h = absurd (omega arith)
links_from-inner i zero (suc (suc n)) h = ap (λ m. some (some (suc m))) (omega arith)
links_from-inner i (suc k) (suc (suc n)) h =
    links_from-inner (suc i) k (suc n) (omega arith) ∙ ap (λ m. some (some (suc m))) (omega arith)

links_from-last : (i k n : ℕ) → suc k ≡ n → get_elem? (links_from i n) k ≡ some none
unfolding links_from
links_from-last i k zero h = absurd (omega arith)
links_from-last i zero (suc zero) h = refl
links_from-last i (suc k) (suc zero) h = absurd (omega arith)
links_from-last i zero (suc (suc n)) h = absurd (omega arith)
links_from-last i (suc k) (suc (suc n)) h = links_from-last (suc i) k (suc n) (omega arith)

-- At first all slots are in the chain, from any of them on.
pub Links-links_from :
    (n m i : ℕ) → i + suc m ≡ n → Links (links_from 0 n) (some i) (range_from i (suc m))
Links-links_from n zero i h = (refl, (none, links_from-last 0 i n (omega arith), refl))
Links-links_from n (suc m) i h = (
  refl,
  (
    some (suc i),
    links_from-inner 0 i n (omega arith) ∙ ap (λ j. some (some (suc j))) (omega arith),
    Links-links_from n m (suc i) (omega arith),
  ),
)
