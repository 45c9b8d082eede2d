-- ===== src/Engine/Book/Priority.antt =====
-- The loops over levels, cursors and holes match in price-time priority.
use matching_machine.Prelude.{
  ℕ, zero, suc, ◌≡◌, refl, sym, ap, ◌∙◌, subst, ◌⊎◌, inl, inr, Bool, true, false, ◌||◌, Option,
  some, List, [], ◌∷◌, ◌++◌, All, length, arith, if◌then◌else◌, if_both,
}
use matching_machine.Prelude.Int.{ℤ}
use matching_machine.Engine.Order.{Side, is_filled}
use matching_machine.Engine.Level.{PriceLevel, front, pop_front, empty, size}
use matching_machine.Engine.Level.Pending.{
  IsReady, pending, queue, live, is_nil, empty-pending, front_live, pop_front-IsReady,
}
use matching_machine.Engine.Level.Queue.{first, others, IsReady-queue}
use matching_machine.Engine.Book.{
  HashMap, State, Levels, better, opposite, fill, settle, match_level, match_best, match_levels,
}
use matching_machine.Engine.Book.Shape.{Prices, Sorted, HasFront}
use matching_machine.Engine.Book.Rounds.{
  Keeps, Keeps-then, fill-Keeps, fill_one, settle-Keeps, is_filled-settle, front_round,
}
use matching_machine.Engine.Book.Sweep.{
  BestDone, match_best-BestDone, match_levels-Swept, drop_holes_live,
}
use matching_machine.Engine.Book.Walk.{
  tag, resting, match_in_order, in_order_done, in_order_next, in_order_last, in_order_stop,
  in_order_done_nil,
}

queue-front :
    (l : PriceLevel) (r : ℕ) → IsReady l → front l ≡ some r → queue l ≡ r ∷ queue (pop_front l)
queue-front l r ready e =
    let facts = IsReady-queue l 0 (λ _. false) ready in
    headed (queue l) r (sym facts.0 ∙ e) ∙ ap (λ (os : List ℕ). r ∷ os) (sym facts.2)
  where
    headed : (os : List ℕ) (r : ℕ) → first os ≡ some r → os ≡ r ∷ others os
    headed [] r e = cc
    headed (o ∷ os) r e = cc

queue_nil : (os : List (Option ℕ)) → is_nil os ≡ true → live os ≡ []
queue_nil [] e = refl
queue_nil (o ∷ os) e = cc

-- Nothing of an empty level rests.
resting_left :
    (q : ℤ) (l : PriceLevel) (ls : Levels) (b : Bool)
    → empty l ≡ b
    → resting (if b then ls else (q, l) ∷ ls) ≡ tag q (queue l) ++ resting ls
resting_left q l ls true e = rw (queue_nil (pending l) (sym (empty-pending l) ∙ e)) refl
resting_left q l ls false e = refl

module _ {M : Type 0} ⦃h : HashMap M⦄ (dealloc : ℕ → List ℕ → List ℕ) (side : Side) (p : ℕ) where
  -- A round over a level is a step of the walk.
  in_order_round :
      (q : ℤ) (r : ℕ) (l : PriceLevel) (rs : List (ℤ × ℕ)) (s : State M) (b : Bool)
      → is_filled ((fill side q p r s).orders r) ≡ b
      → (is_filled (s.orders p) || better (opposite side) (s.orders p).price q) ≡ false
      → queue l ≡ r ∷ queue (pop_front l)
      → match_in_order dealloc side p (tag q (queue l) ++ rs) s
        ≡ match_in_order dealloc side p
            (tag q (queue (if b then pop_front l else l)) ++ rs)
            (settle dealloc r (fill side q p r s))
  in_order_round q r l rs s true e test first_is =
      ap (λ (os : List ℕ). match_in_order dealloc side p (tag q os ++ rs) s) first_is
      ∙ in_order_next dealloc side p q r (tag q (queue (pop_front l)) ++ rs) s test e
  in_order_round q r l rs s false e test first_is =
      let s' = settle dealloc r (fill side q p r s) in
      let full : is_filled (s'.orders p) ≡ true =
        is_filled-settle dealloc r (fill side q p r s) p ∙ fill_one side q p r s e in
      ap (λ (os : List ℕ). match_in_order dealloc side p (tag q os ++ rs) s) first_is
      ∙ in_order_last dealloc side p q r (tag q (queue (pop_front l)) ++ rs) s test e
      ∙ ap (λ (os : List ℕ). (tag q os ++ rs, s')) (sym first_is)
      ∙ sym (in_order_done dealloc side p (tag q (queue l) ++ rs) s' full)

  round-Keeps : (q : ℤ) (r : ℕ) (s : State M) → Keeps s (settle dealloc r (fill side q p r s))
  round-Keeps q r s =
      Keeps-then (fill-Keeps side q p r s) (settle-Keeps dealloc r (fill side q p r s))

  crossing_kept :
      (q : ℤ) (s t : State M)
      → Keeps s t
      → better (opposite side) (s.orders p).price q ≡ false
      → better (opposite side) (t.orders p).price q ≡ false
  crossing_kept q s t k e =
      subst (λ (x : ℤ). better (opposite side) x q ≡ false) (sym (k.prices p)) e

  -- What a loop has done of the walk, with the orders that it leaves.
  abbrev Walks : List (ℤ × ℕ) → State M → List (ℤ × ℕ) → State M → Type 0
  Walks rs s rs' s' = match_in_order dealloc side p rs s ≡ match_in_order dealloc side p rs' s'

  level-Walks :
      (n : ℕ) (q : ℤ) (l : PriceLevel) (rs : List (ℤ × ℕ)) (s : State M)
      → better (opposite side) (s.orders p).price q ≡ false
      → IsReady l
      → let r = match_level dealloc n side q p l s in
        Walks (tag q (queue l) ++ rs) s (tag q (queue r.0) ++ rs) r.1
  unfolding match_level
  level-Walks zero q l rs s crossing ready = refl
  level-Walks (suc n) q l rs s crossing ready =
      if_both
        (λ (r : PriceLevel × State M).
          Walks (tag q (queue l) ++ rs) s (tag q (queue r.0) ++ rs) r.1)
        (is_filled (s.orders p) || empty l) _ _ (λ _. refl)
        (λ e.
          let (r, at_front, some_left) = front_live l ready (ground arith) in
          rw (front_round dealloc side q p r l s at_front) (
            in_order_round q r l rs s _ refl (ground arith) (queue-front l r ready at_front)
            ∙ level-Walks n q _ rs (settle dealloc r (fill side q p r s))
                (crossing_kept q s _ (round-Keeps q r s) crossing)
                (if_both IsReady (is_filled ((fill side q p r s).orders r)) _ _
                  (λ _. pop_front-IsReady l ready) (λ _. ready))))

  best-Walks :
      (q : ℤ) (l : PriceLevel) (ls : Levels) (s : State M)
      → better (opposite side) (s.orders p).price q ≡ false
      → HasFront (q, l)
      → let r = match_best dealloc side p q l ls s in
        Walks (resting ((q, l) ∷ ls)) s (resting r.0) r.1
  unfolding match_best
  best-Walks q l ls s crossing (ready, waiting) =
      let r = match_level dealloc (suc (size l)) side q p l s in
      rw (drop_holes_live (size l) l ready, waiting)
        (level-Walks (suc (size l)) q l (resting ls) s crossing ready
          ∙ ap (λ (rs : List (ℤ × ℕ)). match_in_order dealloc side p rs r.1)
              (sym (resting_left q r.0 ls _ refl)))

  still_live :
      (q : ℤ) (l : PriceLevel) (ls : Levels) (s : State M) (r : Levels × State M)
      → All HasFront ls
      → BestDone dealloc side p q ls s r
      → All HasFront r.0
  still_live q l ls s r live done = elim done.left [
    | inl e ↦ rw e live
    | inr (l', e, front, full) ↦ rw e (front, live)
  ]

  levels-Walks :
      (n : ℕ) (ls : Levels) (s : State M)
      → All HasFront ls
      → let r = match_levels dealloc n side p ls s in Walks (resting ls) s (resting r.0) r.1
  unfolding match_levels
  levels-Walks zero ls s live = refl
  levels-Walks (suc n) [] s live = refl
  levels-Walks (suc n) ((q, l) ∷ ls) s live =
      if_both (λ (r : Levels × State M). Walks (resting ((q, l) ∷ ls)) s (resting r.0) r.1)
        (is_filled (s.orders p) || better (opposite side) (s.orders p).price q) _ _ (λ _. refl)
        (λ e.
          let done = match_best-BestDone dealloc side p q l ls s live.0 in
          best-Walks q l ls s (ground arith) live.0
          ∙ levels-Walks n _ _ (still_live q l ls s _ live.1 done))

  -- Where the loop ends, the walk ends too.
  walk_over :
      (price : ℤ) (ls : Levels) (s : State M)
      → (s.orders p).price ≡ price
      → All HasFront ls
      → (is_filled (s.orders p) ≡ true) ⊎ Prices (λ q. better (opposite side) price q ≡ true) ls
      → match_in_order dealloc side p (resting ls) s ≡ (resting ls, s)
  walk_over price ls s e live (inl full) = in_order_done dealloc side p (resting ls) s full
  walk_over price [] s e live (inr apart) = in_order_done_nil dealloc side p s
  walk_over price ((q, l) ∷ ls) s e live (inr apart) =
      let (r, at_front, some_left) = front_live l live.0.0 live.0.1 in
      let queued = queue-front l r live.0.0 at_front in
      rw queued (in_order_stop dealloc side p q r _ s (rw e apart.0))

  -- Price-time priority: on a side that is sorted and whose levels have a live order at their
  -- cursor, the loops over levels match the incoming order as the plain walk over the resting
  -- orders does, best price first and oldest first within a price. They leave the same orders
  -- resting in the same order, and the same memory, index, trades and orders given back; the rounds
  -- that the model allows are enough for that.
  pub match_levels-match_in_order :
      (ls : Levels) (s : State M)
      → Sorted (opposite side) ls
      → All HasFront ls
      → let r = match_levels dealloc (suc (length ls)) side p ls s in
        match_in_order dealloc side p (resting ls) s ≡ (resting r.0, r.1)
  match_levels-match_in_order ls s sorted live =
      let n = suc (length ls) in
      let w = match_levels-Swept dealloc side p n ls s (omega arith) sorted live in
      let r = match_levels dealloc n side p ls s in
      levels-Walks n ls s live
      ∙ walk_over (s.orders p).price r.0 r.1 (w.kept.prices p) w.live w.over
