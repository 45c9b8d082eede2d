-- ===== src/Engine/Book/Shape.antt =====
-- What the two sides of a book keep: prices sorted, levels with a live front, no crossed prices.
use matching_machine.Prelude.{
  ℕ, ◌≡◌, refl, ◌∙◌, Bool, true, false, Option, some, List, [], ◌∷◌, ◌++◌, All, All-map, arith,
  if_both, if_three,
}
use matching_machine.Prelude.Int.{ℤ, ltb_ℤ, eq_of_parts}
use matching_machine.Engine.Order.{Side, buy, sell}
use matching_machine.Engine.Level.{PriceLevel, no_orders, push, empty, remove}
use matching_machine.Engine.Level.Pending.{
  IsReady, push-IsReady, no_orders-IsReady, remove-IsReady, empty-pending, pending, pending-push,
  is_nil,
}
use matching_machine.Engine.Book.{Levels, better, rest_at, remove_at, State}

abbrev pub Entry : Type 0
Entry = ℤ × PriceLevel

-- Every price of the side satisfies `P`.
abbrev pub Prices : (ℤ → Type 0) → Levels → Type 0
Prices P ls = All (λ (e : Entry). P e.0) ls

-- Best price first, and no price twice.
abbrev pub Sorted : Side → Levels → Type 0
Sorted side [] = Unit
Sorted side ((price, l) ∷ ls) = Prices (λ q. better side price q ≡ true) ls × Sorted side ls

-- Each level has an order at its cursor.
abbrev pub HasFront : Entry → Type 0
HasFront (price, l) = IsReady l × (empty l ≡ false)

abbrev pub Apart : Levels → Levels → Type 0
Apart bids asks = Prices (λ b. Prices (λ a. ltb_ℤ b a ≡ true) asks) bids

pub record AreValid (bids asks : Levels) : Type 0 where
  pub bids_sorted : Sorted buy bids
  pub asks_sorted : Sorted sell asks
  pub bids_live : All HasFront bids
  pub asks_live : All HasFront asks
  pub apart : Apart bids asks

abbrev pub IsValid : {M : Type 0} → State M → Type 0
IsValid s = AreValid s.bid_levels s.ask_levels

pub better_trans :
    (side : Side) (p q r : ℤ)
    → better side p q ≡ true
    → better side q r ≡ true
    → better side p r ≡ true
better_trans buy p q r h k = ground arith
better_trans sell p q r h k = ground arith

pub better_eq : (side : Side) (p q : ℤ) → better side p q ≡ false → better side q p ≡ false → p ≡ q
better_eq buy p q h k = eq_of_parts p q (ground arith)
better_eq sell p q h k = eq_of_parts p q (ground arith)

push_not_empty : (o : ℕ) (l : PriceLevel) → IsReady l → empty (push o l) ≡ false
push_not_empty o l r =
    empty-pending (push o l) ∙ rw (pending-push o l r.cursor) (append_not_nil o (pending l))
  where
    append_not_nil : (o : ℕ) (os : List (Option ℕ)) → is_nil (os ++ some o ∷ []) ≡ false
    append_not_nil o [] = refl
    append_not_nil o (x ∷ os) = refl

push-HasFront : (price : ℤ) (o : ℕ) (l : PriceLevel) → IsReady l → HasFront (price, push o l)
push-HasFront price o l r = (push-IsReady o l r, push_not_empty o l r)

-- `rest_at` adds a level or an order, and nothing else.
module _ (side : Side) (p : ℤ) (o : ℕ) where
  pub rest_at-Prices :
      (P : ℤ → Type 0) (ls : Levels) → P p → Prices P ls → Prices P (rest_at side p o ls)
  unfolding rest_at
  rest_at-Prices P [] hp h = (hp, tt)
  rest_at-Prices P ((q, l) ∷ ls) hp h =
      if_three (Prices P) (better side p q) (better side q p) _ _ _ (λ _. (hp, h))
        (λ _ _. (h.0, rest_at-Prices P ls hp h.1)) (λ _ _. h)

  pub rest_at-Sorted : (ls : Levels) → Sorted side ls → Sorted side (rest_at side p o ls)
  unfolding rest_at
  rest_at-Sorted [] h = (tt, tt)
  rest_at-Sorted ((q, l) ∷ ls) h =
      if_three (Sorted side) (better side p q) (better side q p) _ _ _
        (λ e. ((e, All-map ls (λ (x : Entry) k. better_trans side p q x.0 e k) h.0), h))
        (λ _ e. (rest_at-Prices (λ x. better side q x ≡ true) ls e h.0, rest_at-Sorted ls h.1))
        (λ _ _. h)

  pub rest_at-HasFront : (ls : Levels) → All HasFront ls → All HasFront (rest_at side p o ls)
  unfolding rest_at
  rest_at-HasFront [] h = (push-HasFront p o no_orders no_orders-IsReady, tt)
  rest_at-HasFront ((q, l) ∷ ls) h =
      if_three (All HasFront) (better side p q) (better side q p) _ _ _
        (λ _. (push-HasFront p o no_orders no_orders-IsReady, h))
        (λ _ _. (h.0, rest_at-HasFront ls h.1)) (λ _ _. (push-HasFront q o l h.0.0, h.1))

-- `remove_at` loses a level or an order, and nothing else.
module _ (side : Side) (is_it : ℕ → Bool) (p : ℤ) where
  pub remove_at-Prices :
      (P : ℤ → Type 0) (ls : Levels) → Prices P ls → Prices P (remove_at side is_it p ls)
  unfolding remove_at
  remove_at-Prices P [] h = tt
  remove_at-Prices P ((q, l) ∷ ls) h =
      if_three (Prices P) (better side p q) (better side q p) _ _ _ (λ _. h)
        (λ _ _. (h.0, remove_at-Prices P ls h.1))
        (λ _ _. if_both (Prices P) (empty (remove is_it l)) _ _ (λ _. h.1) (λ _. h))

  pub remove_at-Sorted : (ls : Levels) → Sorted side ls → Sorted side (remove_at side is_it p ls)
  unfolding remove_at
  remove_at-Sorted [] h = tt
  remove_at-Sorted ((q, l) ∷ ls) h =
      if_three (Sorted side) (better side p q) (better side q p) _ _ _ (λ _. h)
        (λ _ _. (remove_at-Prices (λ x. better side q x ≡ true) ls h.0, remove_at-Sorted ls h.1))
        (λ _ _. if_both (Sorted side) (empty (remove is_it l)) _ _ (λ _. h.1) (λ _. h))

  pub remove_at-HasFront :
      (ls : Levels) → All HasFront ls → All HasFront (remove_at side is_it p ls)
  unfolding remove_at
  remove_at-HasFront [] h = tt
  remove_at-HasFront ((q, l) ∷ ls) h =
      if_three (All HasFront) (better side p q) (better side q p) _ _ _ (λ _. h)
        (λ _ _. (h.0, remove_at-HasFront ls h.1))
        (λ _ _.
          if_both (All HasFront) (empty (remove is_it l)) _ _ (λ _. h.1)
            (λ left. ((remove-IsReady is_it l h.0.0, left), h.1)))
