-- ===== src/Engine/Book/Tests.antt =====
-- The book on concrete orders.
use matching_machine.Prelude.{
  ℕ, suc, ◌<◌, ◌≡◌, ◌≢◌, refl, Option, none, some, List, [], ◌∷◌, ◌++◌, All, arith, length, ◌==◌,
  if◌then◌else◌,
}
use matching_machine.Prelude.Int.{ℤ, pos}
use matching_machine.Engine.Order.{Side, buy, sell, limit, OrderStatus, Order}
use matching_machine.Engine.Level.{PriceLevel, push, front, pop_front, empty, remove, size}
use matching_machine.Engine.Level.Pending.{IsReady, queue, is_nil}
use matching_machine.Engine.Level.Queue.{first, others, delete_first, IsReady-queue}
use matching_machine.Engine.Book.{
  HashMap, State, levels, rest_at, fill, remove_at, drop_holes, match_front, match_level,
  match_best, match_levels, match_noalloc,
}
use matching_machine.Engine.Book.Calls.{
  Call, write, add_noalloc, cancel_id, perform_all, new_book, cancel_order, best_bid, best_ask,
  add_order_noalloc, cancel_resting,
}
use matching_machine.Engine.Book.Shape.{IsValid}
use matching_machine.Engine.Book.Valid.{perform_all-IsValid}
use matching_machine.Engine.Book.Sweep.{Swept, match_levels-Swept}
use matching_machine.Engine.Book.Walk.{resting, match_in_order}
use matching_machine.Engine.Book.Priority.{match_levels-match_in_order}
use matching_machine.Engine.Book.Traded.{Traded, total}
use matching_machine.Engine.Book.Trades.{match_noalloc-Traded}

-- The index as an association list.
abbrev Table : Type 0
Table = List (ℕ × ℕ)

lookup : ℕ → Table → Option ℕ
lookup k [] = none
lookup k ((j, v) ∷ m) = if k == j then some v else lookup k m

without : ℕ → Table → Table
without k [] = []
without k ((j, v) ∷ m) = if j == k then without k m else (j, v) ∷ without k m

lookup-without :
    (k j : ℕ) (m : Table) → lookup j (without k m) ≡ (if j == k then none else lookup j m)
unfolding lookup without
lookup-without k j [] = ground arith
lookup-without k j ((i, v) ∷ m) = ground (arith, lookup-without k j m)

lookup-cons :
    (k v j : ℕ) (m : Table) → lookup j ((k, v) ∷ m) ≡ (if j == k then some v else lookup j m)
unfolding lookup
lookup-cons k v j m = refl

assigned :
    (k v j : ℕ) (m : Table)
    → lookup j ((k, v) ∷ without k m) ≡ (if j == k then some v else lookup j m)
unfolding lookup
assigned k v j m = ground (arith, lookup-without k j m)

instance abbrev table : HashMap Table
table = record {
  find = lookup;
  assign = λ k v m. (k, v) ∷ without k m;
  erase = without;
  entries = length;
  erase_all = λ m. [];
  find-assign = assigned;
  find-erase = lookup-without;
}

-- Orders given back, in order.
abbrev give_back : ℕ → List ℕ → List ℕ
give_back o given = given ++ o ∷ []

abbrev order : ℕ → Side → ℕ → ℕ → Order
order id side price quantity = record {
  order_id = id;
  timestamp_ns = 1;
  price = pos price;
  quantity = quantity;
  filled_qty = 0;
  symbol = 0;
  side = side;
  type = limit;
  status = OrderStatus.new;
}

abbrev blank : ℕ → Order
blank i = order 0 buy 0 0

-- Three sell orders, the first of them cancelled again.
abbrev setup : List Call
setup =
    write 1 (order 11 sell 100 5)
    ∷ add_noalloc 0 (some 1)
    ∷ write 2 (order 12 sell 100 4)
    ∷ add_noalloc 0 (some 2)
    ∷ write 3 (order 13 sell 101 2)
    ∷ add_noalloc 0 (some 3)
    ∷ cancel_id 11
    ∷ write 4 (order 14 buy 101 5)
    ∷ []

abbrev asks : State Table
asks = perform_all give_back setup (new_book [] blank)

asks_resting : resting (levels sell asks) ≡ (pos 100, 2) ∷ (pos 101, 3) ∷ []
unfolding perform_all add_order_noalloc match_noalloc match_levels new_book rest_at push
    cancel_resting cancel_order lookup without remove_at empty remove
asks_resting = refl

-- The buy order takes the better price first, and leaves one unit of the worse.
bought_trades :
    let s = perform_all give_back (add_noalloc 0 (some 4) ∷ []) asks in
    (total s.trades ≡ 5) × (s.released ≡ 2 ∷ 4 ∷ []) × (best_ask s ≡ pos 101) × (best_bid s ≡ pos 0)
unfolding perform_all add_order_noalloc match_noalloc match_levels match_best match_level
    match_front fill new_book rest_at push cancel_resting cancel_order lookup without remove_at
    empty remove front pop_front size drop_holes best_ask best_bid
bought_trades = (refl, refl, refl, refl)

asks_IsValid : IsValid asks
asks_IsValid = perform_all-IsValid give_back setup [] blank

perform_all-IsValid_example : IsValid {M = Table} (perform_all give_back setup (new_book [] blank))
perform_all-IsValid_example = perform_all-IsValid give_back setup [] blank

match_levels-match_in_order_example :
    let r = match_levels give_back (suc (length asks.ask_levels)) buy 4 asks.ask_levels asks in
    match_in_order give_back buy 4 (resting asks.ask_levels) asks ≡ (resting r.0, r.1)
match_levels-match_in_order_example =
    match_levels-match_in_order give_back buy 4 asks.ask_levels asks asks_IsValid.asks_sorted
      asks_IsValid.asks_live

few : length asks.ask_levels < 3
unfolding perform_all add_order_noalloc match_noalloc match_levels new_book rest_at push
    cancel_resting cancel_order lookup without remove_at empty remove
few = omega arith

match_levels-Swept_example :
    Swept give_back buy 4
      (asks.orders 4).price
      asks
      asks.ask_levels
      (match_levels give_back 3 buy 4 asks.ask_levels asks)
match_levels-Swept_example =
    match_levels-Swept give_back buy 4 3 asks.ask_levels asks few asks_IsValid.asks_sorted
      asks_IsValid.asks_live

apart : All (λ (x : ℤ × ℕ). 4 ≢ x.1) (resting (levels sell asks))
apart = rw asks_resting (omega arith, (omega arith, tt))

match_noalloc-Traded_example : Traded buy 4 asks (match_noalloc give_back buy 4 asks)
match_noalloc-Traded_example = match_noalloc-Traded buy 4 give_back asks asks_IsValid apart

-- A level with a hole before its last order.
abbrev holed : PriceLevel
holed = record { orders = some 1 ∷ none ∷ some 3 ∷ []; head = 0 }

IsReady-queue_example :
    let is_it = λ (o : ℕ). o == 3 in
    (front holed ≡ first (queue holed))
    × (empty holed ≡ is_nil (queue holed))
    × (queue (pop_front holed) ≡ others (queue holed))
    × (queue (push 4 holed) ≡ queue holed ++ 4 ∷ [])
    × (queue (remove is_it holed) ≡ delete_first is_it (queue holed))
    × IsReady (pop_front holed)
    × IsReady (push 4 holed)
    × IsReady (remove is_it holed)
IsReady-queue_example =
    IsReady-queue holed 4 (λ o. o == 3) (record { cursor = omega arith; starts = tt })
