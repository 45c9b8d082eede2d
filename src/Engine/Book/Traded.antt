-- ===== src/Engine/Book/Traded.antt =====
-- What matching does for its incoming order: the trades that it writes and the quantity that it fills.
use mathlib.Core.List.{append_assoc, append-nil}
use matching_machine.Prelude.{
  ℕ, suc, ◌+◌, ◌≤◌, ◌≡◌, ◌≢◌, refl, sym, ap, ◌∙◌, subst, false, List, [], ◌∷◌, ◌++◌, All, All-map,
  All-append, length, length-append, max, arith, ==_ne, ==_refl,
}
use matching_machine.Prelude.Int.{ℤ}
use matching_machine.Engine.Order.{Side, buy, sell, OrderStatus, Order, Trade}
use matching_machine.Engine.Book.{HashMap, State, better, opposite, set_status, change}

-- Consecutive numbers from `n` on.
abbrev pub Numbered : ℕ → List Trade → Type 0
Numbered n [] = Unit
Numbered n (t ∷ ts) = (t.trade_id ≡ n) × Numbered (suc n) ts

abbrev pub total : List Trade → ℕ
total [] = 0
total (t ∷ ts) = t.quantity + total ts

-- The order ID on the incoming order's side.
abbrev pub incoming_id : Side → Trade → ℕ
incoming_id buy t = t.buy_order_id
incoming_id sell t = t.sell_order_id

-- A trade of an incoming order: at a price that it crosses, under its ID, time and symbol.
abbrev pub IsOf : Side → Order → Trade → Type 0
IsOf side o t =
    (better (opposite side) o.price t.price ≡ false)
    × (incoming_id side t ≡ o.order_id)
    × (t.timestamp_ns ≡ o.timestamp_ns)
    × (t.symbol ≡ o.symbol)

-- What matching leaves of an order.
abbrev pub SameTerms : Order → Order → Type 0
SameTerms o o' =
    (o'.price ≡ o.price)
    × (o'.order_id ≡ o.order_id)
    × (o'.timestamp_ns ≡ o.timestamp_ns)
    × (o'.symbol ≡ o.symbol)
    × (o'.quantity ≡ o.quantity)

IsOf-SameTerms :
    (side : Side) (o o' : Order) (t : Trade) → SameTerms o o' → IsOf side o' t → IsOf side o t
IsOf-SameTerms side o o' t (p, i, n, y, q) (c, c1, c2, c3) =
    (subst (λ (x : ℤ). better (opposite side) x t.price ≡ false) p c, c1 ∙ i, c2 ∙ n, c3 ∙ y)

SameTerms-then : (o o' o'' : Order) → SameTerms o o' → SameTerms o' o'' → SameTerms o o''
SameTerms-then o o' o'' (a, b, c, d, e) (a', b', c', d', e') =
    (a' ∙ a, b' ∙ b, c' ∙ c, d' ∙ d, e' ∙ e)

Numbered-append :
    (n : ℕ) (ts us : List Trade)
    → Numbered n ts
    → Numbered (n + length ts) us
    → Numbered n (ts ++ us)
Numbered-append n [] us h k = subst (λ m. Numbered m us) (omega arith) k
Numbered-append n (t ∷ ts) us h k =
    (h.0, Numbered-append (suc n) ts us h.1 (subst (λ m. Numbered m us) (omega arith) k))

total-append : (ts us : List Trade) → total (ts ++ us) ≡ total ts + total us
total-append [] us = omega arith
total-append (t ∷ ts) us = omega (arith, total-append ts us)

module _ {M : Type 0} ⦃h : HashMap M⦄ (side : Side) (p : ℕ) where
  -- What matching is to have done, from the state before and the state after.
  pub record Traded (s r : State M) : Type 0 where
    pub new : List Trade
    pub trades : r.trades ≡ s.trades ++ new
    pub counter : r.trade_id_counter ≡ s.trade_id_counter + length new
    pub numbered : Numbered (suc s.trade_id_counter) new
    pub fair : All (IsOf side (s.orders p)) new
    pub filled_qty : (r.orders p).filled_qty ≡ (s.orders p).filled_qty + total new
    pub bounded : (r.orders p).filled_qty ≤ max (s.orders p).filled_qty (s.orders p).quantity
    pub same : SameTerms (s.orders p) (r.orders p)

  pub Traded-self : (s : State M) → Traded s s
  Traded-self s = record {
    new = [];
    trades = sym (append-nil s.trades);
    counter = omega arith;
    numbered = tt;
    fair = tt;
    filled_qty = omega arith;
    bounded = omega arith;
    same = (refl, refl, refl, refl, refl);
  }

  pub Traded-then : (s t r : State M) → Traded s t → Traded t r → Traded s r
  Traded-then s t r a b = record {
    new = a.new ++ b.new;
    trades =
        b.trades
        ∙ ap (λ (ts : List Trade). ts ++ b.new) a.trades
        ∙ append_assoc s.trades a.new b.new;
    counter = omega (arith, a.counter, b.counter, length-append a.new b.new);
    numbered =
        Numbered-append (suc s.trade_id_counter) a.new b.new a.numbered
          (subst (λ n. Numbered n b.new) (omega (arith, a.counter)) b.numbered);
    fair = All-append (IsOf side (s.orders p)) a.new b.new a.fair (
        All-map b.new (λ (x : Trade) k. IsOf-SameTerms side (s.orders p) (t.orders p) x a.same k)
          b.fair);
    filled_qty = omega (arith, a.filled_qty, b.filled_qty, total-append a.new b.new);
    bounded = omega (arith, a.bounded, b.bounded, a.same.4);
    same = SameTerms-then (s.orders p) (t.orders p) (r.orders p) a.same b.same;
  }

  pub with_other :
      (r : ℕ) (s t : State M) (status : OrderStatus)
      → p ≢ r
      → Traded s t
      → (index : M) (released : List ℕ)
      → Traded s
          (record (change r (set_status status) t) { order_index = index; released = released })
  with_other r s t status ne a index released =
      let other = ==_ne p r ne in
      record {
        new = a.new;
        trades = a.trades;
        counter = a.counter;
        numbered = a.numbered;
        fair = a.fair;
        filled_qty = rw other a.filled_qty;
        bounded = rw other a.bounded;
        same = rw other a.same;
      }

  pub with_own :
      (s t : State M) (status : OrderStatus)
      → Traded s t
      → (index : M) → Traded s (record (change p (set_status status) t) { order_index = index })
  with_own s t status a index =
      let own = ==_refl p in
      record {
        new = a.new;
        trades = a.trades;
        counter = a.counter;
        numbered = a.numbered;
        fair = a.fair;
        filled_qty = rw own a.filled_qty;
        bounded = rw own a.bounded;
        same = rw own a.same;
      }
