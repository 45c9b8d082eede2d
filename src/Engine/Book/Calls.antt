-- ===== src/Engine/Book/Calls.antt =====
-- The calls of the book: `add_order_noalloc`, `add_order`, `cancel_order` and the queries.
use matching_machine.Prelude.{
  ℕ, Bool, true, false, ◌&&◌, not, Option, none, some, List, [], ◌∷◌, ◌==◌, if◌then◌else◌,
}
use matching_machine.Prelude.Int.{ℤ, pos}
use matching_machine.Engine.Order.{
  OrderType, limit, cancel, OrderStatus, filled, cancelled, Order, is_filled, Trade,
}
use matching_machine.Engine.Book.{
  HashMap, Levels, rest_at, remove_at, State, store, set_status, levels, with_levels, change,
  release, match_noalloc,
}

unfoldable pub is_closed : OrderStatus → Bool
is_closed filled = true
is_closed cancelled = true
is_closed status = false

-- `order->type == OrderType::LIMIT`
unfoldable pub is_limit : OrderType → Bool
is_limit limit = true
is_limit cancel = false

abbrev pub found : Option ℕ → Bool
found none = false
found (some o) = true

best : Levels → ℤ
best [] = pos 0
best ((price, l) ∷ ls) = price

module _ {M : Type 0} ⦃h : HashMap M⦄ where
  unfoldable pub cancel_found : ℕ → Option ℕ → State M → Option ℕ × State M
  cancel_found id none s = (none, s)
  cancel_found id (some o) s =
      let order = s.orders o in
      let s' = change o (set_status cancelled) s in
      let is_it = λ (i : ℕ). (s'.orders i).order_id == id in
      let ls = remove_at order.side is_it order.price (levels order.side s') in
      if is_closed order.status then (none, s) else (
        some o,
        record (with_levels order.side ls s') { order_index = h.erase id s.order_index },
      )

  -- The order that it cancels, if there is one.
  unfoldable pub cancel_resting : ℕ → State M → Option ℕ × State M
  unfolding cancel_found is_closed
  cancel_resting id s = cancel_found id (h.find id s.order_index) s

  unfoldable pub cancel_order : ℕ → State M → Bool × State M
  cancel_order id s = let (o, s') = cancel_resting id s in (found o, s')

  unfoldable pub stamp : ℕ → ℕ → State M → State M
  stamp now o s =
      if (s.orders o).timestamp_ns == 0
      then change o (λ order. record order { timestamp_ns = now }) s
      else s

  -- What is left of a limit order rests behind the others of its price.
  unfoldable pub rest_left : ℕ → State M → State M
  unfolding is_limit
  rest_left o s =
      let order = s.orders o in
      let ls = rest_at order.side order.price o (levels order.side s) in
      if not (is_filled order) && is_limit order.type then with_levels order.side ls s else s

  unfoldable pub add_limit : (ℕ → List ℕ → List ℕ) → ℕ → State M → State M
  unfolding rest_left
  add_limit dealloc o s =
      let order = s.orders o in
      let indexed = record s { order_index = h.assign order.order_id o s.order_index } in
      rest_left o (match_noalloc dealloc order.side o indexed)

  unfoldable pub release_found : (ℕ → List ℕ → List ℕ) → Option ℕ → State M → State M
  release_found dealloc none s = s
  release_found dealloc (some o) s = release dealloc o s

  unfoldable pub add_typed : (ℕ → List ℕ → List ℕ) → OrderType → ℕ → State M → State M
  unfolding release_found add_limit
  add_typed dealloc cancel o s =
      let (cancelled_order, s') = cancel_resting (s.orders o).order_id s in
      release dealloc o (release_found dealloc cancelled_order s')
  add_typed dealloc limit o s =
      let s' = add_limit dealloc o s in if is_filled (s'.orders o) then release dealloc o s' else s'

  -- `now` is what `LatencyRecorder::now()` reads.
  unfoldable pub add_order_noalloc : (ℕ → List ℕ → List ℕ) → ℕ → Option ℕ → State M → State M
  unfolding add_typed stamp
  add_order_noalloc dealloc now none s = s
  add_order_noalloc dealloc now (some o) s =
      let s' = stamp now o s in add_typed dealloc (s'.orders o).type o s'

  -- The vector version gives nothing back, and returns the trades of the call.
  unfoldable pub add_order : ℕ → Option ℕ → State M → List Trade × State M
  unfolding add_limit stamp
  add_order now none s = ([], s)
  add_order now (some o) s =
      let s' = add_limit (λ _ given. given) o (record (stamp now o s) { trades = [] }) in
      (s'.trades, record s' { trades = s.trades })

  unfoldable pub best_bid : State M → ℤ
  unfolding best
  best_bid s = best s.bid_levels

  unfoldable pub best_ask : State M → ℤ
  unfolding best
  best_ask s = best s.ask_levels

  unfoldable pub order_count : State M → ℕ
  order_count s = h.entries s.order_index

  unfoldable pub clear : State M → State M
  clear s = record s {
    bid_levels = [];
    ask_levels = [];
    order_index = h.erase_all s.order_index;
    trade_id_counter = 0;
  }

  -- A new book, over the memory as it is.
  unfoldable pub new_book : M → (ℕ → Order) → State M
  new_book index orders = record {
    bid_levels = [];
    ask_levels = [];
    order_index = index;
    trade_id_counter = 0;
    orders = orders;
    trades = [];
    released = [];
  }

-- What a client does with a book: it fills a slot of memory with an order, or calls the book.
pub data Call : Type 0 where
  write : ℕ → Order → Call
  add_noalloc : ℕ → Option ℕ → Call
  add : ℕ → Option ℕ → Call
  cancel_id : ℕ → Call
  clear_all : Call

module _ {M : Type 0} ⦃h : HashMap M⦄ (dealloc : ℕ → List ℕ → List ℕ) where
  unfoldable pub perform : Call → State M → State M
  perform (write p order) s = record s { orders = store s.orders p order }
  perform (add_noalloc now order) s = add_order_noalloc dealloc now order s
  perform (add now order) s = (add_order now order s).1
  perform (cancel_id id) s = (cancel_order id s).1
  perform clear_all s = clear s

  unfoldable pub perform_all : List Call → State M → State M
  unfolding perform
  perform_all [] s = s
  perform_all (call ∷ calls) s = perform_all calls (perform call s)
