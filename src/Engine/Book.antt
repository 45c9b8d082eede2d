-- ===== src/Engine/Book.antt =====
-- include/order_book.h and src/order_book.cpp: the price-time priority book of one symbol. Orders
-- are objects in memory that the levels, the index and the caller point at.
pub mod Calls
pub mod Shape
pub mod Rounds
pub mod Sweep
pub mod Matched
pub mod Valid
pub mod Walk
pub mod Priority
pub mod Traded
pub mod Trades
mod Tests
use matching_machine.Prelude.{
  ℕ, zero, suc, ◌+◌, ◌≡◌, Bool, ◌||◌, Option, none, some, List, [], ◌∷◌, ◌++◌, length, min, ltb,
  ◌==◌, if◌then◌else◌,
}
use matching_machine.Prelude.Int.{ℤ, ltb_ℤ}
use matching_machine.Engine.Order.{
  Side, buy, sell, OrderStatus, filled, partial, Order, remaining_qty, is_filled, Trade,
}
use matching_machine.Engine.Level.{
  PriceLevel, no_orders, push, front, pop_front, empty, size, remove,
}

-- What the book uses of `absl::flat_hash_map`, from order IDs to pointers.
pub record HashMap (M : Type 0) : Type 0 where
  pub find : ℕ → M → Option ℕ
  pub assign : ℕ → ℕ → M → M
  pub erase : ℕ → M → M
  pub entries : M → ℕ
  pub erase_all : M → M
  pub find-assign :
      (k v j : ℕ) (m : M) → find j (assign k v m) ≡ (if j == k then some v else find j m)
  pub find-erase : (k j : ℕ) (m : M) → find j (erase k m) ≡ (if j == k then none else find j m)

-- One side: `std::map` from price to level, best price first.
abbrev pub Levels : Type 0
Levels = List (ℤ × PriceLevel)

-- The order of a side's map: bids by `std::greater`, asks by `std::less`.
abbrev pub better : Side → ℤ → ℤ → Bool
better buy p q = ltb_ℤ q p
better sell p q = ltb_ℤ p q

abbrev pub opposite : Side → Side
opposite buy = sell
opposite sell = buy

-- `levels[price].push(order)`
unfoldable pub rest_at : Side → ℤ → ℕ → Levels → Levels
rest_at side p o [] = (p, push o no_orders) ∷ []
rest_at side p o ((q, l) ∷ ls) =
    let below = rest_at side p o ls in
    if better side p q
    then (p, push o no_orders) ∷ (q, l) ∷ ls
    else if better side q p
    then (q, l) ∷ below
    else (q, push o l) ∷ ls

-- `remove_from_level`: finds the level of the price, and erases it if nothing live remains.
unfoldable pub remove_at : Side → (ℕ → Bool) → ℤ → Levels → Levels
remove_at side is_it p [] = []
remove_at side is_it p ((q, l) ∷ ls) =
    let below = remove_at side is_it p ls in
    let l' = remove is_it l in
    if better side p q
    then (q, l) ∷ ls
    else if better side q p
    then (q, l) ∷ below
    else if empty l'
    then ls
    else (q, l') ∷ ls

-- The book, the memory with the orders, the trades written and the orders given back so far.
pub record State (M : Type 0) : Type 0 where
  pub bid_levels : Levels
  pub ask_levels : Levels
  pub order_index : M
  pub trade_id_counter : ℕ
  pub orders : ℕ → Order
  pub trades : List Trade
  pub released : List ℕ

abbrev pub store : (ℕ → Order) → ℕ → Order → ℕ → Order
store orders i o j = if j == i then o else orders j

abbrev pub add_filled : ℕ → Order → Order
add_filled qty o = record o { filled_qty = o.filled_qty + qty }

abbrev pub set_status : OrderStatus → Order → Order
set_status status o = record o { status = status }

abbrev pub buy_id : Side → Order → Order → ℕ
buy_id buy incoming resting = incoming.order_id
buy_id sell incoming resting = resting.order_id

abbrev pub sell_id : Side → Order → Order → ℕ
sell_id buy incoming resting = resting.order_id
sell_id sell incoming resting = incoming.order_id

-- Leading holes of a level are popped.
unfoldable pub drop_holes : ℕ → PriceLevel → PriceLevel
drop_holes zero l = l
drop_holes (suc n) l =
    let popped = drop_holes n (pop_front l) in
    if empty l then l else elim (front l) [ none ↦ popped | some o ↦ l ]

-- `dealloc` is the template's deallocator: what an order given back adds to those given back. The
-- vector version `match` is the one whose deallocator does nothing.
module _ {M : Type 0} ⦃h : HashMap M⦄ where
  abbrev pub levels : Side → State M → Levels
  levels buy s = s.bid_levels
  levels sell s = s.ask_levels

  abbrev pub with_levels : Side → Levels → State M → State M
  with_levels buy ls s = record s { bid_levels = ls }
  with_levels sell ls s = record s { ask_levels = ls }

  abbrev pub change : ℕ → (Order → Order) → State M → State M
  change i f s = record s { orders = store s.orders i (f (s.orders i)) }

  -- The quantities move and the trade is written.
  unfoldable pub fill : Side → ℤ → ℕ → ℕ → State M → State M
  fill side price incoming resting s =
      let qty = min (remaining_qty (s.orders incoming)) (remaining_qty (s.orders resting)) in
      let s' = change resting (add_filled qty) (change incoming (add_filled qty) s) in
      let id = suc s.trade_id_counter in
      let i = s'.orders incoming in
      let r = s'.orders resting in
      record s' {
        trade_id_counter = id;
        trades =
            s.trades
            ++ record {
              trade_id = id;
              timestamp_ns = i.timestamp_ns;
              buy_order_id = buy_id side i r;
              sell_order_id = sell_id side i r;
              price = price;
              quantity = qty;
              symbol = i.symbol;
            }
              ∷ [];
      }

  module _ (dealloc : ℕ → List ℕ → List ℕ) where
    abbrev pub release : ℕ → State M → State M
    release o s = record s { released = dealloc o s.released }

    -- The resting order after a fill.
    abbrev pub settle : ℕ → State M → State M
    settle resting s =
        if is_filled (s.orders resting)
        then release resting (
            change resting (set_status filled)
              (record s { order_index = h.erase (s.orders resting).order_id s.order_index }))
        else change resting (set_status partial) s

    -- One round of the loop over a level, with what stands at its front.
    unfoldable pub match_front :
        Side → ℤ → ℕ → Option ℕ → PriceLevel → State M → PriceLevel × State M
    match_front side price incoming none l s = (pop_front l, s)
    match_front side price incoming (some resting) l s =
        let s' = fill side price incoming resting s in
        ((if is_filled (s'.orders resting) then pop_front l else l), settle resting s')

    -- Until the incoming order is filled or the level is empty.
    unfoldable pub match_level : ℕ → Side → ℤ → ℕ → PriceLevel → State M → PriceLevel × State M
    match_level zero side price incoming l s = (l, s)
    match_level (suc n) side price incoming l s =
        let (l', s') = match_front side price incoming (front l) l s in
        let after = match_level n side price incoming l' s' in
        if is_filled (s.orders incoming) || empty l then (l, s) else after

    -- The best level: without its holes, erased when nothing is left.
    unfoldable pub match_best : Side → ℕ → ℤ → PriceLevel → Levels → State M → Levels × State M
    match_best side incoming price l ls s =
        let l0 = drop_holes (size l) l in
        let (l', s') = match_level (suc (size l0)) side price incoming l0 s in
        if empty l0 then (ls, s) else ((if empty l' then ls else (price, l') ∷ ls), s')

    -- Until the incoming order is filled, no level is left or the best price does not cross.
    unfoldable pub match_levels : ℕ → Side → ℕ → Levels → State M → Levels × State M
    match_levels zero side incoming ls s = (ls, s)
    match_levels (suc n) side incoming [] s = ([], s)
    match_levels (suc n) side incoming ((price, l) ∷ ls) s =
        let (ls', s') = match_best side incoming price l ls s in
        let after = match_levels n side incoming ls' s' in
        if is_filled (s.orders incoming) || better (opposite side) (s.orders incoming).price price
        then ((price, l) ∷ ls, s)
        else after

    -- The incoming order's status after the loop.
    abbrev pub conclude : ℕ → State M → State M
    conclude incoming s =
        if is_filled (s.orders incoming)
        then change incoming (set_status filled)
            (record s { order_index = h.erase (s.orders incoming).order_id s.order_index })
        else if ltb 0 (s.orders incoming).filled_qty
        then change incoming (set_status partial) s
        else s

    unfoldable pub match_noalloc : Side → ℕ → State M → State M
    match_noalloc side incoming s =
        let ls = levels (opposite side) s in
        let (ls', s') = match_levels (suc (length ls)) side incoming ls s in
        conclude incoming (with_levels (opposite side) ls' s')
