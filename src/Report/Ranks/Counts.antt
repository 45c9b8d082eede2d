-- ===== src/Report/Ranks/Counts.antt =====
-- The rank of a value by counting: the values below it, and half of those that equal it.
use matching_machine.Prelude.{ℕ, ◌+◌, ◌*◌, ◌≡◌, List, [], ◌∷◌, map, arith, length, count}
use matching_machine.Report.Floats.{Order, lt, eqv, le_refl}

-- The sum of a list of numbers.
abbrev pub sum : List ℕ → ℕ
sum [] = 0
sum (x ∷ xs) = x + sum xs

module _ {F : Type 0} ⦃o : Order F⦄ where
  -- Twice the mean of the positions, from 1, that the values equal to `v` take in sorted order.
  abbrev pub rank_of : List F → F → ℕ
  rank_of values v = 2 * count (λ w. lt w v) values + count (λ w. eqv w v) values + 1

  -- A new value adds 2 to itself and each old value together, however the two compare.
  sum-ranks_cons :
      (x : F) (vs ws : List F)
      → sum (map (rank_of (x ∷ vs)) ws) + 2 * count (λ w. lt w x) ws + count (λ w. eqv w x) ws
        ≡ sum (map (rank_of vs) ws) + 2 * length ws
  sum-ranks_cons x vs [] = omega arith
  sum-ranks_cons x vs (w ∷ ws) = ground (arith, sum-ranks_cons x vs ws, o.le_total x w)

  pub sum-rank_of : (vs : List F) → sum (map (rank_of vs) vs) ≡ length vs * (length vs + 1)
  sum-rank_of [] = omega arith
  sum-rank_of (x ∷ vs) = ground (arith, sum-ranks_cons x vs vs, sum-rank_of vs, le_refl x)
