-- ===== src/Engine/Book/Valid.antt =====
-- Every call of the book keeps it valid.
use matching_machine.Prelude.{
  ℕ, ◌≡◌, ◌⊎◌, inl, inr, Bool, true, false, ◌&&◌, not, arith, Option, none, some, List, [], ◌∷◌,
  All-map, All-zip, if_both, ◌==◌,
}
use matching_machine.Prelude.Int.{ℤ, ltb_ℤ}
use matching_machine.Engine.Order.{
  Side, buy, sell, OrderType, limit, cancel, cancelled, Order, is_filled,
}
use matching_machine.Engine.Book.{
  HashMap, State, better, opposite, levels, with_levels, rest_at, remove_at, change, set_status,
  match_noalloc,
}
use matching_machine.Engine.Book.Calls.{
  cancel_found, is_closed, cancel_resting, cancel_order, stamp, is_limit, rest_left, add_limit,
  release_found, add_typed, add_order_noalloc, add_order, clear, new_book, Call, write, add_noalloc,
  add, cancel_id, clear_all, perform, perform_all,
}
use matching_machine.Engine.Book.Shape.{
  Entry, Prices, IsValid, rest_at-Prices, rest_at-Sorted, rest_at-HasFront, remove_at-Prices,
  remove_at-Sorted, remove_at-HasFront,
}
use matching_machine.Engine.Book.Matched.{match_noalloc-Matched}

crosses_nothing : (b : Bool) (P : Type 0) → (b ≡ true) ⊎ P → b ≡ false → P
crosses_nothing b P (inl full) e = cc
crosses_nothing b P (inr p) e = p

module _ {M : Type 0} ⦃h : HashMap M⦄ where
  -- Removing an order keeps the book valid.
  removed :
      (side : Side) (is_it : ℕ → Bool) (price : ℤ) (s : State M)
      → IsValid s
      → IsValid (with_levels side (remove_at side is_it price (levels side s)) s)
  removed buy is_it price s v = record {
    bids_sorted = remove_at-Sorted buy is_it price s.bid_levels v.bids_sorted;
    asks_sorted = v.asks_sorted;
    bids_live = remove_at-HasFront buy is_it price s.bid_levels v.bids_live;
    asks_live = v.asks_live;
    apart =
        remove_at-Prices buy is_it price (λ b. Prices (λ a. ltb_ℤ b a ≡ true) s.ask_levels)
          s.bid_levels v.apart;
  }
  removed sell is_it price s v = record {
    bids_sorted = v.bids_sorted;
    asks_sorted = remove_at-Sorted sell is_it price s.ask_levels v.asks_sorted;
    bids_live = v.bids_live;
    asks_live = remove_at-HasFront sell is_it price s.ask_levels v.asks_live;
    apart =
        All-map s.bid_levels
          (λ (b : Entry) k.
            remove_at-Prices sell is_it price (λ a. ltb_ℤ b.0 a ≡ true) s.ask_levels k)
          v.apart;
  }

  cancel_found-IsValid :
      (id : ℕ) (found : Option ℕ) (s : State M) → IsValid s → IsValid (cancel_found id found s).1
  unfolding cancel_found
  cancel_found-IsValid id none s v = v
  cancel_found-IsValid id (some o) s v =
      let order = s.orders o in
      let s' = change o (set_status cancelled) s in
      let k = removed order.side (λ i. (s'.orders i).order_id == id) order.price s' v in
      if_both (λ (r : Option ℕ × State M). IsValid r.1) (is_closed order.status) _ _ (λ _. v)
        (λ _. k)

  new_book-IsValid : (index : M) (orders : ℕ → Order) → IsValid (new_book index orders)
  unfolding new_book
  new_book-IsValid index orders = record {
    bids_sorted = tt;
    asks_sorted = tt;
    bids_live = tt;
    asks_live = tt;
    apart = tt;
  }

  pub cancel_resting-IsValid : (id : ℕ) (s : State M) → IsValid s → IsValid (cancel_resting id s).1
  unfolding cancel_resting
  cancel_resting-IsValid id s v = cancel_found-IsValid id (h.find id s.order_index) s v

  module _ (dealloc : ℕ → List ℕ → List ℕ) where
    -- What is left of an order rests where it crosses nothing.
    rested :
        (side : Side) (price : ℤ) (o : ℕ) (s : State M)
        → IsValid s
        → Prices (λ q. better (opposite side) price q ≡ true) (levels (opposite side) s)
        → IsValid (with_levels side (rest_at side price o (levels side s)) s)
    rested buy price o s v apart = record {
      bids_sorted = rest_at-Sorted buy price o s.bid_levels v.bids_sorted;
      asks_sorted = v.asks_sorted;
      bids_live = rest_at-HasFront buy price o s.bid_levels v.bids_live;
      asks_live = v.asks_live;
      apart =
          rest_at-Prices buy price o (λ b. Prices (λ a. ltb_ℤ b a ≡ true) s.ask_levels) s.bid_levels
            apart v.apart;
    }
    rested sell price o s v apart = record {
      bids_sorted = v.bids_sorted;
      asks_sorted = rest_at-Sorted sell price o s.ask_levels v.asks_sorted;
      bids_live = v.bids_live;
      asks_live = rest_at-HasFront sell price o s.ask_levels v.asks_live;
      apart =
          All-zip s.bid_levels
            (λ (b : Entry) k all.
              rest_at-Prices sell price o (λ a. ltb_ℤ b.0 a ≡ true) s.ask_levels k all)
            apart v.apart;
    }

    add_limit-IsValid : (o : ℕ) (s : State M) → IsValid s → IsValid (add_limit dealloc o s)
    unfolding add_limit rest_left
    add_limit-IsValid o s v =
        let order = s.orders o in
        let s' : State M = record s { order_index = h.assign order.order_id o s.order_index } in
        let t = match_noalloc dealloc order.side o s' in
        let m = match_noalloc-Matched dealloc order.side o s' v in
        let left = t.orders o in
        if_both IsValid (not (is_filled left) && is_limit left.type) _ _
          (λ e.
            let unfilled : is_filled left ≡ false = ground arith in
            rw (m.sides o, m.prices o)
              (rested order.side order.price o t m.valid (crosses_nothing _ _ m.over unfilled)))
          (λ _. m.valid)

    release_found-IsValid :
        (found : Option ℕ) (s : State M) → IsValid s → IsValid (release_found dealloc found s)
    unfolding release_found
    release_found-IsValid none s v = v
    release_found-IsValid (some o) s v = v

    add_typed-IsValid :
        (type : OrderType) (o : ℕ) (s : State M) → IsValid s → IsValid (add_typed dealloc type o s)
    unfolding add_typed
    add_typed-IsValid cancel o s v =
        release_found-IsValid (cancel_resting (s.orders o).order_id s).0 _
          (cancel_resting-IsValid (s.orders o).order_id s v)
    add_typed-IsValid limit o s v =
        if_both IsValid (is_filled ((add_limit dealloc o s).orders o)) _ _
          (λ _. add_limit-IsValid o s v) (λ _. add_limit-IsValid o s v)

    stamp-IsValid : (now o : ℕ) (s : State M) → IsValid s → IsValid (stamp now o s)
    unfolding stamp
    stamp-IsValid now o s v = if_both IsValid ((s.orders o).timestamp_ns == 0) _ _ (λ _. v) (λ _. v)

    pub add_order_noalloc-IsValid :
        (now : ℕ) (order : Option ℕ) (s : State M)
        → IsValid s
        → IsValid (add_order_noalloc dealloc now order s)
    unfolding add_order_noalloc
    add_order_noalloc-IsValid now none s v = v
    add_order_noalloc-IsValid now (some o) s v =
        add_typed-IsValid _ o (stamp now o s) (stamp-IsValid now o s v)

  module _ (dealloc : ℕ → List ℕ → List ℕ) where
    perform-IsValid : (call : Call) (s : State M) → IsValid s → IsValid (perform dealloc call s)
    unfolding perform add_order clear cancel_order
    perform-IsValid (write p order) s v = v
    perform-IsValid (add_noalloc now order) s v = add_order_noalloc-IsValid dealloc now order s v
    perform-IsValid (add now none) s v = v
    perform-IsValid (add now (some o)) s v =
        add_limit-IsValid (λ _ given. given) o (record (stamp now o s) { trades = [] })
          (stamp-IsValid dealloc now o s v)
    perform-IsValid (cancel_id id) s v = cancel_resting-IsValid id s v
    perform-IsValid clear_all s v = record {
      bids_sorted = tt;
      asks_sorted = tt;
      bids_live = tt;
      asks_live = tt;
      apart = tt;
    }

    performed :
        (calls : List Call) (s : State M) → IsValid s → IsValid (perform_all dealloc calls s)
    unfolding perform_all
    performed [] s v = v
    performed (call ∷ calls) s v =
        performed calls (perform dealloc call s) (perform-IsValid call s v)

    -- After any calls from a new book, whatever orders stand in memory, the prices of each side are
    -- strictly in order, best first, every level has a live order at its cursor, and the book is
    -- not crossed: every bid is below every ask.
    pub perform_all-IsValid :
        (calls : List Call) (index : M) (orders : ℕ → Order)
        → IsValid (perform_all dealloc calls (new_book index orders))
    perform_all-IsValid calls index orders =
        performed calls (new_book index orders) (new_book-IsValid index orders)
