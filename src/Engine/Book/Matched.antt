-- ===== src/Engine/Book/Matched.antt =====
-- Matching keeps the book valid and leaves nothing that the incoming order crosses.
use matching_machine.Prelude.{
  ℕ, suc, ◌≡◌, refl, sym, ◌∙◌, subst, ◌⊎◌, inl, inr, true, List, All, All-map, length, arith,
  if_both, ltb,
}
use matching_machine.Prelude.Int.{ltb_ℤ}
use matching_machine.Engine.Order.{Side, buy, sell, filled, partial, is_filled}
use matching_machine.Engine.Book.{
  HashMap, State, Levels, better, opposite, levels, with_levels, set_status, conclude,
  match_noalloc,
}
use matching_machine.Engine.Book.Shape.{Entry, Prices, Sorted, HasFront, AreValid, IsValid}
use matching_machine.Engine.Book.Rounds.{Keeps, Keeps-self, change-Keeps, status_is_filled}
use matching_machine.Engine.Book.Sweep.{Swept, match_levels-Swept}

module _ {M : Type 0} ⦃h : HashMap M⦄ where
  pub Keeps-IsValid : {s t : State M} → Keeps s t → IsValid s → IsValid t
  Keeps-IsValid {s} {t} k v =
      subst (λ b. AreValid b t.ask_levels) (sym k.bids)
        (subst (AreValid s.bid_levels) (sym k.asks) v)

  levels-Keeps : (side : Side) {s t : State M} → Keeps s t → levels side t ≡ levels side s
  levels-Keeps buy k = k.bids
  levels-Keeps sell k = k.asks

  pub opposite_sorted :
      (side : Side) (s : State M) → IsValid s → Sorted (opposite side) (levels (opposite side) s)
  opposite_sorted buy s v = v.asks_sorted
  opposite_sorted sell s v = v.bids_sorted

  pub opposite_live :
      (side : Side) (s : State M) → IsValid s → All HasFront (levels (opposite side) s)
  opposite_live buy s v = v.asks_live
  opposite_live sell s v = v.bids_live

  module _ (dealloc : ℕ → List ℕ → List ℕ) where
    conclude-Keeps : (p : ℕ) (s : State M) → Keeps s (conclude dealloc p s)
    conclude-Keeps p s =
        if_both (Keeps s) (is_filled (s.orders p)) _ _
          (λ _.
            let k = change-Keeps p (set_status filled) s refl refl in
            record { prices = k.prices; sides = k.sides; bids = refl; asks = refl })
          (λ _.
            if_both (Keeps s) (ltb 0 (s.orders p).filled_qty) _ _
              (λ _. change-Keeps p (set_status partial) s refl refl) (λ _. Keeps-self s))

    is_filled-conclude :
        (p : ℕ) (s : State M) → is_filled ((conclude dealloc p s).orders p) ≡ is_filled (s.orders p)
    is_filled-conclude p s =
        let Same : State M → Type 0 = λ t. is_filled (t.orders p) ≡ is_filled (s.orders p) in
        if_both Same (is_filled (s.orders p)) _ _ (λ _. status_is_filled p filled s p)
          (λ _.
            if_both Same (ltb 0 (s.orders p).filled_qty) _ _ (λ _. status_is_filled p partial s p)
              (λ _. refl))

    -- A book after matching: valid, and the incoming order filled or crossing nothing.
    pub record Matched (side : Side) (p : ℕ) (s r : State M) : Type 0 where
      pub valid : IsValid r
      pub prices : (j : ℕ) → (r.orders j).price ≡ (s.orders j).price
      pub sides : (j : ℕ) → (r.orders j).side ≡ (s.orders j).side
      pub over :
          (is_filled (r.orders p) ≡ true)
          ⊎ Prices
              (λ q. better (opposite side) (s.orders p).price q ≡ true)
              (levels (opposite side) r)

    concluded :
        (side : Side) (p : ℕ) (s r : State M)
        → Matched side p s r
        → Matched side p s (conclude dealloc p r)
    concluded side p s r m =
        let k = conclude-Keeps p r in
        record {
          valid = Keeps-IsValid k m.valid;
          prices = λ j. k.prices j ∙ m.prices j;
          sides = λ j. k.sides j ∙ m.sides j;
          over = elim m.over [
            | inl full ↦ inl (is_filled-conclude p r ∙ full)
            | inr apart ↦ inr (rw (levels-Keeps (opposite side) k) apart)
          ];
        }

    Swept-Matched :
        (side : Side) (p : ℕ) (s : State M) (r : Levels × State M)
        → IsValid s
        → Swept dealloc side p (s.orders p).price s (levels (opposite side) s) r
        → Matched side p s (with_levels (opposite side) r.0 r.1)
    Swept-Matched buy p s r v w = record {
      valid =
          subst (λ b. AreValid b r.0) (sym w.kept.bids)
            (record {
              bids_sorted = v.bids_sorted;
              asks_sorted = w.sorted v.asks_sorted;
              bids_live = v.bids_live;
              asks_live = w.live;
              apart =
                  All-map s.bid_levels (λ (b : Entry) k. w.among (λ a. ltb_ℤ b.0 a ≡ true) k)
                    v.apart;
            });
      prices = w.kept.prices;
      sides = w.kept.sides;
      over = w.over;
    }
    Swept-Matched sell p s r v w = record {
      valid = subst (AreValid r.0) (sym w.kept.asks) (record {
        bids_sorted = w.sorted v.bids_sorted;
        asks_sorted = v.asks_sorted;
        bids_live = w.live;
        asks_live = v.asks_live;
        apart = w.among (λ b. Prices (λ a. ltb_ℤ b a ≡ true) s.ask_levels) v.apart;
      });
      prices = w.kept.prices;
      sides = w.kept.sides;
      over = w.over;
    }

    pub match_noalloc-Matched :
        (side : Side) (p : ℕ) (s : State M)
        → IsValid s
        → Matched side p s (match_noalloc dealloc side p s)
    unfolding match_noalloc
    match_noalloc-Matched side p s v = concluded side p s _ (
        Swept-Matched side p s _ v (
          match_levels-Swept dealloc side p (suc (length (levels (opposite side) s)))
            (levels (opposite side) s) s (omega arith) (opposite_sorted side s v)
            (opposite_live side s v)))
