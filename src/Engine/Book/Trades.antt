-- ===== src/Engine/Book/Trades.antt =====
-- What the trades of one matching are.
use matching_machine.Prelude.{
  ℕ, suc, ◌+◌, ◌≡◌, ◌≢◌, refl, ap, ◌∙◌, subst, false, ◌||◌, List, [], ◌∷◌, ◌++◌, All, length, min,
  arith, if_both, if_three, ==_ne, ==_refl, ltb,
}
use matching_machine.Prelude.Int.{ℤ}
use matching_machine.Engine.Order.{
  Side, buy, sell, filled, partial, Order, remaining_qty, is_filled, Trade,
}
use matching_machine.Engine.Book.{
  HashMap, State, Levels, better, opposite, levels, with_levels, add_filled, buy_id, sell_id, fill,
  settle, conclude, match_levels, match_noalloc,
}
use matching_machine.Engine.Book.Shape.{IsValid}
use matching_machine.Engine.Book.Walk.{resting, match_in_order}
use matching_machine.Engine.Book.Matched.{opposite_sorted, opposite_live}
use matching_machine.Engine.Book.Priority.{match_levels-match_in_order}
use matching_machine.Engine.Book.Traded.{
  incoming_id, IsOf, Traded, Traded-self, Traded-then, with_other, with_own,
}

module _ {M : Type 0} ⦃h : HashMap M⦄ (side : Side) (p : ℕ) where
  -- The trade of one fill.
  trade_with : ℤ → ℕ → State M → Trade
  trade_with price r s =
      let qty = min (remaining_qty (s.orders p)) (remaining_qty (s.orders r)) in
      let s' = fill side price p r s in
      record {
        trade_id = suc s.trade_id_counter;
        timestamp_ns = (s'.orders p).timestamp_ns;
        buy_order_id = buy_id side (s'.orders p) (s'.orders r);
        sell_order_id = sell_id side (s'.orders p) (s'.orders r);
        price = price;
        quantity = qty;
        symbol = (s'.orders p).symbol;
      }

  fill_trades :
      (price : ℤ) (r : ℕ) (s : State M)
      → (fill side price p r s).trades ≡ s.trades ++ trade_with price r s ∷ []
  unfolding fill trade_with
  fill_trades price r s = refl

  fill_counter :
      (price : ℤ) (r : ℕ) (s : State M)
      → (fill side price p r s).trade_id_counter ≡ s.trade_id_counter + 1
  unfolding fill
  fill_counter price r s = omega arith

  -- The incoming order after a fill with another.
  fill_incoming :
      (price : ℤ) (r : ℕ) (s : State M)
      → p ≢ r
      → (fill side price p r s).orders p
        ≡ add_filled (min (remaining_qty (s.orders p)) (remaining_qty (s.orders r))) (s.orders p)
  unfolding fill
  fill_incoming price r s ne = rw (==_ne p r ne, ==_refl p) refl

  trade_IsOf :
      (price : ℤ) (r : ℕ) (s : State M)
      → p ≢ r
      → better (opposite side) (s.orders p).price price ≡ false
      → IsOf side (s.orders p) (trade_with price r s)
  unfolding trade_with
  trade_IsOf price r s ne crossing =
      let incoming = fill_incoming price r s ne in
      (
        crossing,
        own_id side _ _ (trade_with price r s) ∙ ap (λ (o : Order). o.order_id) incoming,
        ap (λ (o : Order). o.timestamp_ns) incoming,
        ap (λ (o : Order). o.symbol) incoming,
      )
    where
      own_id :
          (side : Side) (i r : Order) (t : Trade)
          → incoming_id side
              (record t { buy_order_id = buy_id side i r; sell_order_id = sell_id side i r })
            ≡ i.order_id
      own_id buy i r t = refl
      own_id sell i r t = refl

  Traded-fill :
      (price : ℤ) (r : ℕ) (s : State M)
      → p ≢ r
      → better (opposite side) (s.orders p).price price ≡ false
      → Traded side p s (fill side price p r s)
  unfolding trade_with
  Traded-fill price r s ne crossing =
      let incoming = fill_incoming price r s ne in
      record {
        new = trade_with price r s ∷ [];
        trades = fill_trades price r s;
        counter = fill_counter price r s;
        numbered = (refl, tt);
        fair = (trade_IsOf price r s ne crossing, tt);
        filled_qty = omega (arith, ap (λ (o : Order). o.filled_qty) incoming);
        bounded = omega (arith, ap (λ (o : Order). o.filled_qty) incoming);
        same = rw incoming (refl, refl, refl, refl, refl);
      }

  with_side :
      (other : Side) (ls : Levels) (s t : State M)
      → Traded side p s t
      → Traded side p s (with_levels other ls t)
  with_side buy ls s t a = record {
    new = a.new;
    trades = a.trades;
    counter = a.counter;
    numbered = a.numbered;
    fair = a.fair;
    filled_qty = a.filled_qty;
    bounded = a.bounded;
    same = a.same;
  }
  with_side sell ls s t a = record {
    new = a.new;
    trades = a.trades;
    counter = a.counter;
    numbered = a.numbered;
    fair = a.fair;
    filled_qty = a.filled_qty;
    bounded = a.bounded;
    same = a.same;
  }

  module _ (dealloc : ℕ → List ℕ → List ℕ) where
    -- Settling the other order writes no trade and leaves the incoming one.
    Traded-settle :
        (r : ℕ) (s t : State M) → p ≢ r → Traded side p s t → Traded side p s (settle dealloc r t)
    Traded-settle r s t ne a =
        if_both (Traded side p s) (is_filled (t.orders r)) _ _
          (λ _.
            with_other side p r s t filled ne a (h.erase (t.orders r).order_id t.order_index)
              (dealloc r t.released))
          (λ _. with_other side p r s t partial ne a t.order_index t.released)

    Traded-conclude : (s t : State M) → Traded side p s t → Traded side p s (conclude dealloc p t)
    Traded-conclude s t a =
        if_both (Traded side p s) (is_filled (t.orders p)) _ _
          (λ _. with_own side p s t filled a (h.erase (t.orders p).order_id t.order_index))
          (λ _.
            if_both (Traded side p s) (ltb 0 (t.orders p).filled_qty) _ _
              (λ _. with_own side p s t partial a t.order_index) (λ _. a))

    -- The walk's trades.
    walk-Traded :
        (rs : List (ℤ × ℕ)) (s : State M)
        → All (λ (x : ℤ × ℕ). p ≢ x.1) rs
        → Traded side p s (match_in_order dealloc side p rs s).1
    unfolding match_in_order
    walk-Traded [] s apart = Traded-self side p s
    walk-Traded ((q, r) ∷ rs) s apart =
        let s' = settle dealloc r (fill side q p r s) in
        if_three (λ (x : List (ℤ × ℕ) × State M). Traded side p s x.1)
          (is_filled (s.orders p) || better (opposite side) (s.orders p).price q)
          (is_filled ((fill side q p r s).orders r)) _ _ _ (λ _. Traded-self side p s)
          (λ e _.
            Traded-then side p s s' _
              (Traded-settle r s _ apart.0 (Traded-fill q r s apart.0 (ground arith)))
              (walk-Traded rs s' apart.1))
          (λ e _. Traded-settle r s _ apart.0 (Traded-fill q r s apart.0 (ground arith)))

    -- Matching in a valid book an order that does not rest on the other side appends its trades to
    -- those written: with consecutive numbers after the counter, which moves on by as many, each at
    -- a price that the order crosses and with its ID, time and symbol on its side. The order's
    -- filled quantity grows by just what these trades sum up to, does not pass its quantity, and
    -- its terms stay.
    pub match_noalloc-Traded :
        (s : State M)
        → IsValid s
        → All (λ (x : ℤ × ℕ). p ≢ x.1) (resting (levels (opposite side) s))
        → Traded side p s (match_noalloc dealloc side p s)
    unfolding match_noalloc
    match_noalloc-Traded s v apart =
        let ls = levels (opposite side) s in
        let walked =
          match_levels-match_in_order dealloc side p ls s (opposite_sorted side s v)
            (opposite_live side s v) in
        let r = match_levels dealloc (suc (length ls)) side p ls s in
        Traded-conclude s (with_levels (opposite side) r.0 r.1) (
          with_side (opposite side) r.0 s r.1 (
            subst (λ (x : List (ℤ × ℕ) × State M). Traded side p s x.1) walked
              (walk-Traded (resting ls) s apart)))
