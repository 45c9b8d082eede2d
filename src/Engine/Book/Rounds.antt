-- ===== src/Engine/Book/Rounds.antt =====
-- One level: every round keeps the orders' terms, and the loop ends with the incoming order filled
-- or the level empty.
use matching_machine.Prelude.{
  ℕ, zero, suc, ◌≤◌, ◌<◌, ◌≡◌, refl, sym, ap, ◌∙◌, ◌⊎◌, inl, inr, Bool, true, false, ◌||◌, some,
  List, length, arith, if◌then◌else◌, if_both, min, ◌==◌, ==_iff,
}
use matching_machine.Prelude.Int.{ℤ}
use matching_machine.Engine.Order.{
  Side, OrderStatus, filled, partial, Order, remaining_qty, is_filled,
}
use matching_machine.Engine.Level.{PriceLevel, front, pop_front, empty}
use matching_machine.Engine.Level.Pending.{
  IsReady, pop_front-IsReady, pending, front_live, pop_shorter,
}
use matching_machine.Engine.Book.{
  HashMap, State, store, add_filled, set_status, change, fill, settle, match_front, match_level,
}

-- Prices, sides and levels stay.
pub record Keeps {M : Type 0} (s s' : State M) : Type 0 where
  pub prices : (j : ℕ) → (s'.orders j).price ≡ (s.orders j).price
  pub sides : (j : ℕ) → (s'.orders j).side ≡ (s.orders j).side
  pub bids : s'.bid_levels ≡ s.bid_levels
  pub asks : s'.ask_levels ≡ s.ask_levels

module _ {M : Type 0} where
  pub Keeps-self : (s : State M) → Keeps s s
  Keeps-self s = record { prices = λ j. refl; sides = λ j. refl; bids = refl; asks = refl }

  pub Keeps-then : {s t u : State M} → Keeps s t → Keeps t u → Keeps s u
  Keeps-then k l = record {
    prices = λ j. l.prices j ∙ k.prices j;
    sides = λ j. l.sides j ∙ k.sides j;
    bids = l.bids ∙ k.bids;
    asks = l.asks ∙ k.asks;
  }

-- A write to one order that leaves something of it leaves that of every order.
store_same :
    {B : Type 0} (part : Order → B) (orders : ℕ → Order) (i : ℕ) (o : Order) (j : ℕ)
    → part o ≡ part (orders i)
    → part (store orders i o j) ≡ part (orders j)
store_same part orders i o j e =
    if_both (λ (x : Order). part x ≡ part (orders j)) (j == i) o (orders j)
      (λ q. e ∙ ap (λ (k : ℕ). part (orders k)) (sym ((==_iff j i).0 q))) (λ _. refl)

or_cases : (a b : Bool) → (a || b) ≡ true → (a ≡ true) ⊎ (b ≡ true)
or_cases true b e = inl refl
or_cases false b e = inr e

module _ {M : Type 0} ⦃h : HashMap M⦄ where
  pub change-Keeps :
      (i : ℕ) (f : Order → Order) (s : State M)
      → (f (s.orders i)).price ≡ (s.orders i).price
      → (f (s.orders i)).side ≡ (s.orders i).side
      → Keeps s (change i f s)
  change-Keeps i f s p q = record {
    prices = λ j. store_same (λ o. o.price) s.orders i (f (s.orders i)) j p;
    sides = λ j. store_same (λ o. o.side) s.orders i (f (s.orders i)) j q;
    bids = refl;
    asks = refl;
  }

  pub status_is_filled :
      (i : ℕ) (status : OrderStatus) (s : State M) (j : ℕ)
      → is_filled ((change i (set_status status) s).orders j) ≡ is_filled (s.orders j)
  status_is_filled i status s j = store_same is_filled s.orders i _ j refl

  pub fill-Keeps :
      (side : Side) (price : ℤ) (p r : ℕ) (s : State M) → Keeps s (fill side price p r s)
  unfolding fill
  fill-Keeps side price p r s =
      let qty = min (remaining_qty (s.orders p)) (remaining_qty (s.orders r)) in
      let both : Keeps s (change r (add_filled qty) (change p (add_filled qty) s)) =
        Keeps-then (change-Keeps p (add_filled qty) s refl refl)
          (change-Keeps r (add_filled qty) (change p (add_filled qty) s) refl refl) in
      record { prices = both.prices; sides = both.sides; bids = refl; asks = refl }

  -- A fill leaves one of the two orders filled.
  pub fill_one :
      (side : Side) (price : ℤ) (p r : ℕ) (s : State M)
      → is_filled ((fill side price p r s).orders r) ≡ false
      → is_filled ((fill side price p r s).orders p) ≡ true
  unfolding fill
  fill_one side price p r s h = ground arith

  -- What a level is to be, and which orders have been matched.
  abbrev pub IsOver : ℕ → PriceLevel × State M → Type 0
  IsOver p (l, s) = (is_filled (s.orders p) ≡ true) ⊎ (empty l ≡ true)

  module _ (dealloc : ℕ → List ℕ → List ℕ) where
    pub settle-Keeps : (r : ℕ) (s : State M) → Keeps s (settle dealloc r s)
    settle-Keeps r s =
        if_both (Keeps s) (is_filled (s.orders r)) _ _
          (λ _.
            let k = change-Keeps r (set_status filled) s refl refl in
            record { prices = k.prices; sides = k.sides; bids = refl; asks = refl })
          (λ _. change-Keeps r (set_status partial) s refl refl)

    pub is_filled-settle :
        (r : ℕ) (s : State M) (j : ℕ)
        → is_filled ((settle dealloc r s).orders j) ≡ is_filled (s.orders j)
    is_filled-settle r s j =
        if_both (λ (t : State M). is_filled (t.orders j) ≡ is_filled (s.orders j))
          (is_filled (s.orders r)) _ _ (λ _. status_is_filled r filled s j)
          (λ _. status_is_filled r partial s j)

    -- A filled incoming order ends the loop at once.
    pub match_level_done :
        (n : ℕ) (side : Side) (price : ℤ) (p : ℕ) (l : PriceLevel) (s : State M)
        → is_filled (s.orders p) ≡ true
        → match_level dealloc n side price p l s ≡ (l, s)
    unfolding match_level
    match_level_done zero side price p l s e = refl
    match_level_done (suc n) side price p l s e = rw e refl

    -- How a loop over a level ends.
    pub record Ends (p : ℕ) (s : State M) (r : PriceLevel × State M) : Type 0 where
      pub ready : IsReady r.0
      pub kept : Keeps s r.1
      pub over : IsOver p r

    pub front_round :
        (side : Side) (price : ℤ) (p r : ℕ) (l : PriceLevel) (s : State M)
        → front l ≡ some r
        → match_front dealloc side price p (front l) l s ≡ (
          (if is_filled ((fill side price p r s).orders r) then pop_front l else l),
          settle dealloc r (fill side price p r s),
        )
    unfolding match_front
    front_round side price p r l s e = rw e refl

    pub after_round :
        (n : ℕ) (side : Side) (price : ℤ) (p r : ℕ) (l : PriceLevel) (s : State M) (b : Bool)
        → is_filled ((fill side price p r s).orders r) ≡ b
        → IsReady l
        → 1 ≤ length (pending l)
        → length (pending l) < suc n
        → ((l' : PriceLevel) (s' : State M)
            → IsReady l'
            → length (pending l') < n
            → Ends p s' (match_level dealloc n side price p l' s'))
        → Ends p s (
            match_level dealloc n side price p
              (if b then pop_front l else l)
              (settle dealloc r (fill side price p r s)))
    after_round n side price p r l s true e ready some_left h ih =
        let s' = settle dealloc r (fill side price p r s) in
        let later =
          ih (pop_front l) s' (pop_front-IsReady l ready)
            (omega (arith, pop_shorter l some_left)) in
        let k = Keeps-then (fill-Keeps side price p r s) (settle-Keeps r (fill side price p r s)) in
        record { ready = later.ready; kept = Keeps-then k later.kept; over = later.over }
    after_round n side price p r l s false e ready some_left h ih =
        let s' = settle dealloc r (fill side price p r s) in
        let full : is_filled (s'.orders p) ≡ true =
          is_filled-settle r (fill side price p r s) p ∙ fill_one side price p r s e in
        rw (match_level_done n side price p l s' full) (record {
          ready = ready;
          kept = Keeps-then (fill-Keeps side price p r s) (settle-Keeps r (fill side price p r s));
          over = inl full;
        })

    -- With a round for each order of the level and one more test, the loop ends.
    pub match_level-Ends :
        (n : ℕ) (side : Side) (price : ℤ) (p : ℕ) (l : PriceLevel) (s : State M)
        → IsReady l
        → length (pending l) < n
        → Ends p s (match_level dealloc n side price p l s)
    unfolding match_level
    match_level-Ends zero side price p l s ready h = absurd (omega arith)
    match_level-Ends (suc n) side price p l s ready h =
        if_both (Ends p s) (is_filled (s.orders p) || empty l) _ _
          (λ e. record { ready = ready; kept = Keeps-self s; over = or_cases _ _ e })
          (λ e.
            let waiting : empty l ≡ false = ground arith in
            let (r, at_front, some_left) = front_live l ready waiting in
            rw (front_round side price p r l s at_front) (
              after_round n side price p r l s _ refl ready some_left h
                (λ l' s' ready' h'. match_level-Ends n side price p l' s' ready' h')))
