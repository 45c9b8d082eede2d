-- ===== src/Summary/Layout/Lines.antt =====
-- What the lines of a layout log add to its observation.
use mathlib.Core.List.{append-nil, append_assoc}
use matching_machine.Effects.Checks.{Holds, Holds-bind}
use matching_machine.Prelude.{
  ℕ, suc, ◌%◌, ◌≡◌, refl, sym, ap, ◌∙◌, subst, Bool, true, Option, none, some, List, [], ◌∷◌, ◌++◌,
  arith, length, map, select, count, All, Bool-cases, inl, inr,
}
use matching_machine.Summary.{Key}
use matching_machine.Summary.Layout.{Line, Observation, add_residues, add_fields, add_lines}

-- The residues of an observation are those of its addresses.
abbrev pub IsConsistent : Observation → Type 0
IsConsistent v =
    (v.mod64 ≡ map (λ x. x % 64) v.address) × (v.mod4096 ≡ map (λ x. x % 4096) v.address)

map-snoc :
    {A B : Type 0} (f : A → B) (xs : List A) (x : A) → map f (xs ++ x ∷ []) ≡ map f xs ++ f x ∷ []
map-snoc f [] x = refl
map-snoc f (y ∷ xs) x = ap (◌∷◌ (f y)) (map-snoc f xs x)

-- An observation of a launch whose lines had these addresses.
abbrev pub IsOf : Key → List (Option ℕ) → Observation → Type 0
IsOf key fields v = (v.key ≡ key) × IsConsistent v × (map some v.address ≡ fields)

add_residues-IsOf :
    (key : Key) (fields : List (Option ℕ)) (x m n : ℕ) (v : Observation)
    → IsOf key fields v
    → Holds (IsOf key (fields ++ some x ∷ [])) (add_residues x m n v)
unfolding add_residues
add_residues-IsOf key fields x m n v h = ground (
  arith,
  map-snoc (λ (y : ℕ). y % 64) v.address x,
  map-snoc (λ (y : ℕ). y % 4096) v.address x,
  map-snoc (λ (y : ℕ). some y) v.address x,
)

add_fields-IsOf :
    (key : Key) (fields : List (Option ℕ)) (x m n : Option ℕ) (v : Observation)
    → IsOf key fields v
    → Holds (IsOf key (fields ++ x ∷ [])) (add_fields x m n v)
unfolding add_fields
add_fields-IsOf key fields (some x) (some m) (some n) v h = add_residues-IsOf key fields x m n v h
add_fields-IsOf key fields none m n v h = tt
add_fields-IsOf key fields (some x) none n v h = tt
add_fields-IsOf key fields (some x) (some m) none v h = tt

abbrev pub addresses : List Line → List (Option ℕ)
addresses lines = map (λ l. l.address) lines

pub add_lines-IsOf :
    (key : Key) (fields : List (Option ℕ)) (lines : List Line) (v : Observation)
    → IsOf key fields v
    → Holds (IsOf key (fields ++ addresses lines)) (add_lines lines v)
unfolding add_lines
add_lines-IsOf key fields [] v h = (h.0, h.1, h.2 ∙ sym (append-nil fields))
add_lines-IsOf key fields (l ∷ lines) v h =
    Holds-bind (IsOf key (fields ++ l.address ∷ [])) (IsOf key (fields ++ addresses (l ∷ lines))) _
      (add_lines lines) (add_fields-IsOf key fields l.address l.mod64 l.mod4096 v h)
      (λ v' o.
        subst (λ all. Holds (IsOf key all) (add_lines lines v'))
          (append_assoc fields (l.address ∷ []) (addresses lines))
          (add_lines-IsOf key (fields ++ l.address ∷ []) lines v' o))

-- What a test selects passes it, and is as much as passes it.
pub selected :
    {A : Type 0} (p : A → Bool) (xs : List A)
    → All (λ x. p x ≡ true) (select p xs) × (length (select p xs) ≡ count p xs)
selected p [] = (tt, refl)
selected p (x ∷ xs) = elim (Bool-cases (p x)) [
  | inl e ↦ let (all, n) = selected p xs in rw e ((e, all), ap suc n)
  | inr e ↦ let (all, n) = selected p xs in rw e (all, n)
]
