-- ===== src/Engine/Book/Walk.antt =====
-- Price-time priority, as a plain walk over the resting orders: best price first, and in each price
-- oldest first.
use matching_machine.Prelude.{
  ℕ, ◌≡◌, refl, Bool, true, false, ◌||◌, List, [], ◌∷◌, ◌++◌, if◌then◌else◌, if_second, if_third,
}
use matching_machine.Prelude.Int.{ℤ}
use matching_machine.Engine.Order.{Side, is_filled}
use matching_machine.Engine.Level.Pending.{queue}
use matching_machine.Engine.Book.{HashMap, State, Levels, better, opposite, fill, settle}

-- The orders of a level with its price, and those of a side.
abbrev pub tag : ℤ → List ℕ → List (ℤ × ℕ)
tag q [] = []
tag q (o ∷ os) = (q, o) ∷ tag q os

abbrev pub resting : Levels → List (ℤ × ℕ)
resting [] = []
resting ((q, l) ∷ ls) = tag q (queue l) ++ resting ls

module _ {M : Type 0} ⦃h : HashMap M⦄ (dealloc : ℕ → List ℕ → List ℕ) (side : Side) (p : ℕ) where
  -- The incoming order meets the resting orders one by one, while it is not filled and they cross.
  unfoldable pub match_in_order : List (ℤ × ℕ) → State M → List (ℤ × ℕ) × State M
  match_in_order [] s = ([], s)
  match_in_order ((q, r) ∷ rs) s =
      let s' = fill side q p r s in
      let later = match_in_order rs (settle dealloc r s') in
      if is_filled (s.orders p) || better (opposite side) (s.orders p).price q
      then ((q, r) ∷ rs, s)
      else if is_filled (s'.orders r)
      then later
      else ((q, r) ∷ rs, settle dealloc r s')

  pub in_order_done :
      (rs : List (ℤ × ℕ)) (s : State M)
      → is_filled (s.orders p) ≡ true
      → match_in_order rs s ≡ (rs, s)
  unfolding match_in_order
  in_order_done [] s e = refl
  in_order_done ((q, r) ∷ rs) s e = rw e refl

  pub in_order_done_nil : (s : State M) → match_in_order [] s ≡ ([], s)
  unfolding match_in_order
  in_order_done_nil s = refl

  -- One step of the walk, on each of its branches.
  pub in_order_next :
      (q : ℤ) (r : ℕ) (rs : List (ℤ × ℕ)) (s : State M)
      → (is_filled (s.orders p) || better (opposite side) (s.orders p).price q) ≡ false
      → is_filled ((fill side q p r s).orders r) ≡ true
      → match_in_order ((q, r) ∷ rs) s ≡ match_in_order rs (settle dealloc r (fill side q p r s))
  unfolding match_in_order
  in_order_next q r rs s test e = if_second _ _ _ _ _ test e

  pub in_order_last :
      (q : ℤ) (r : ℕ) (rs : List (ℤ × ℕ)) (s : State M)
      → (is_filled (s.orders p) || better (opposite side) (s.orders p).price q) ≡ false
      → is_filled ((fill side q p r s).orders r) ≡ false
      → match_in_order ((q, r) ∷ rs) s ≡ ((q, r) ∷ rs, settle dealloc r (fill side q p r s))
  unfolding match_in_order
  in_order_last q r rs s test e = if_third _ _ _ _ _ test e

  pub in_order_stop :
      (q : ℤ) (r : ℕ) (rs : List (ℤ × ℕ)) (s : State M)
      → better (opposite side) (s.orders p).price q ≡ true
      → match_in_order ((q, r) ∷ rs) s ≡ ((q, r) ∷ rs, s)
  unfolding match_in_order
  in_order_stop q r rs s e =
      let test : (is_filled (s.orders p) || better (opposite side) (s.orders p).price q) ≡ true =
        or_true _ _ e in
      rw test refl
    where
      or_true : (a b : Bool) → b ≡ true → (a || b) ≡ true
      or_true true b e = refl
      or_true false b e = e
