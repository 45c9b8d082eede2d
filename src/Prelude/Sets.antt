-- ===== src/Prelude/Sets.antt =====
-- What the lists that are read as sets have in common.
use Prim.Native.Nat.{ℕ}
use mathlib.Core.Path.{◌≡◌}
use mathlib.Core.Bool.{true}
use mathlib.Core.List.{List, [], ◌∷◌}
use native.Mathlib.Omega.{arith}
use matching_machine.Prelude.Lists.{contains, subset, set_eq}

pub contains_of_subset :
    (xs ys : List ℕ) (x : ℕ) → subset xs ys ≡ true → contains xs x ≡ true → contains ys x ≡ true
contains_of_subset [] ys x h m = cc
contains_of_subset (y ∷ xs) ys x h m = ground (arith, contains_of_subset xs ys x)

pub contains_of_set_eq :
    (xs ys : List ℕ) (x : ℕ) → set_eq xs ys ≡ true → contains xs x ≡ true → contains ys x ≡ true
contains_of_set_eq xs ys x h m = contains_of_subset xs ys x (ground arith) m

-- Lists that are equal as sets have the same elements.
pub contains-set_eq : (xs ys : List ℕ) (x : ℕ) → set_eq xs ys ≡ true → contains xs x ≡ contains ys x
contains-set_eq xs ys x h = ground (arith, contains_of_subset xs ys x, contains_of_subset ys xs x)
