-- ===== src/Engine/Book/Sweep.antt =====
-- All levels: the loop ends with the incoming order filled or no level left that it crosses.
use matching_machine.Prelude.{
  ℕ, zero, suc, ◌<◌, ◌≡◌, refl, subst, ◌⊎◌, inl, inr, Bool, true, false, ◌||◌, List, [], ◌∷◌, All,
  All-map, length, arith, if◌then◌else◌, if_both,
}
use matching_machine.Prelude.Int.{ℤ}
use matching_machine.Engine.Order.{Side, is_filled}
use matching_machine.Engine.Level.{PriceLevel, front, empty, size}
use matching_machine.Engine.Level.Pending.{IsReady, pending, length-drop_at, front_live}
use matching_machine.Engine.Book.{
  HashMap, State, Levels, better, opposite, match_level, match_best, match_levels, drop_holes,
}
use matching_machine.Engine.Book.Shape.{Entry, Prices, Sorted, HasFront, better_trans}
use matching_machine.Engine.Book.Rounds.{Keeps, Keeps-self, Keeps-then, IsOver, match_level-Ends}

-- No hole stands first, so none is popped.
pub drop_holes_live : (n : ℕ) (l : PriceLevel) → IsReady l → drop_holes n l ≡ l
unfolding drop_holes
drop_holes_live zero l ready = refl
drop_holes_live (suc n) l ready =
    if_both (λ (m : PriceLevel). m ≡ l) (empty l) _ _ (λ _. refl)
      (λ e. let (r, at_front, some_left) = front_live l ready e in rw at_front refl)

pub size_enough : (l : PriceLevel) → length (pending l) < suc (size l)
unfolding size
size_enough l = omega (arith, length-drop_at l.head l.orders)

module _ {M : Type 0} ⦃h : HashMap M⦄ (dealloc : ℕ → List ℕ → List ℕ) (side : Side) (p : ℕ) where
  -- What the loop is to have done, with the incoming order's price at its start.
  pub record Swept (price : ℤ) (s : State M) (ls : Levels) (r : Levels × State M) : Type 1 where
    pub kept : Keeps s r.1
    pub among : (P : ℤ → Type 0) → Prices P ls → Prices P r.0
    pub sorted : Sorted (opposite side) ls → Sorted (opposite side) r.0
    pub live : All HasFront r.0
    pub over :
        (is_filled (r.1.orders p) ≡ true) ⊎ Prices (λ q. better (opposite side) price q ≡ true) r.0

  -- The best level is used up and erased, or the incoming order is filled.
  pub record BestDone (q : ℤ) (ls : Levels) (s : State M) (r : Levels × State M) : Type 0 where
    pub kept : Keeps s r.1
    pub left :
        (r.0 ≡ ls)
        ⊎ ((l : PriceLevel) × (r.0 ≡ (q, l) ∷ ls)
            × HasFront (q, l)
            × (is_filled (r.1.orders p) ≡ true))

  over_left :
      (q : ℤ) (ls : Levels) (r : PriceLevel × State M) (b : Bool)
      → empty r.0 ≡ b
      → IsReady r.0
      → IsOver p r
      → ((if b then ls else (q, r.0) ∷ ls) ≡ ls)
        ⊎ ((l : PriceLevel) × ((if b then ls else (q, r.0) ∷ ls) ≡ (q, l) ∷ ls)
            × HasFront (q, l)
            × (is_filled (r.1.orders p) ≡ true))
  over_left q ls r true e ready over = inl refl
  over_left q ls r false e ready (inl full) = inr (r.0, refl, (ready, e), full)
  over_left q ls r false e ready (inr gone) = cc

  pub match_best-BestDone :
      (q : ℤ) (l : PriceLevel) (ls : Levels) (s : State M)
      → HasFront (q, l)
      → BestDone q ls s (match_best dealloc side p q l ls s)
  unfolding match_best
  match_best-BestDone q l ls s (ready, waiting) =
      let done = match_level-Ends dealloc (suc (size l)) side q p l s ready (size_enough l) in
      let r = match_level dealloc (suc (size l)) side q p l s in
      rw (drop_holes_live (size l) l ready, waiting)
        (record { kept = done.kept; left = over_left q ls r _ refl done.ready done.over })

  pub match_levels_done :
      (n : ℕ) (ls : Levels) (s : State M)
      → is_filled (s.orders p) ≡ true
      → match_levels dealloc n side p ls s ≡ (ls, s)
  unfolding match_levels
  match_levels_done zero ls s e = refl
  match_levels_done (suc n) [] s e = refl
  match_levels_done (suc n) ((q, l) ∷ ls) s e = rw e refl

  -- The loop stopped by its test.
  Swept-stopped :
      (q : ℤ) (l : PriceLevel) (ls : Levels) (s : State M)
      → Sorted (opposite side) ((q, l) ∷ ls)
      → All HasFront ((q, l) ∷ ls)
      → (a b : Bool) → is_filled (s.orders p) ≡ a
      → better (opposite side) (s.orders p).price q ≡ b
      → (a || b) ≡ true
      → Swept (s.orders p).price s ((q, l) ∷ ls) ((q, l) ∷ ls, s)
  Swept-stopped q l ls s sorted live true b e f t = record {
    kept = Keeps-self s;
    among = λ P k. k;
    sorted = λ k. k;
    live = live;
    over = inl e;
  }
  Swept-stopped q l ls s sorted live false true e f t = record {
    kept = Keeps-self s;
    among = λ P k. k;
    sorted = λ k. k;
    live = live;
    over = inr (
      f,
      All-map ls (λ (x : Entry) k. better_trans (opposite side) (s.orders p).price q x.0 f k)
          sorted.0,
    );
  }
  Swept-stopped q l ls s sorted live false false e f t = cc

  Swept-round :
      (n : ℕ) (q : ℤ) (l : PriceLevel) (ls : Levels) (s : State M) (r : Levels × State M)
      → BestDone q ls s r
      → Sorted (opposite side) ((q, l) ∷ ls)
      → All HasFront ((q, l) ∷ ls)
      → ((t : State M) → Swept (t.orders p).price t ls (match_levels dealloc n side p ls t))
      → Swept (s.orders p).price s ((q, l) ∷ ls) (match_levels dealloc n side p r.0 r.1)
  Swept-round n q l ls s r done sorted live ih = elim done.left [
    | inl e ↦
        let later = ih r.1 in
        rw e (record {
          kept = Keeps-then done.kept later.kept;
          among = λ P k. later.among P k.1;
          sorted = λ k. later.sorted k.1;
          live = later.live;
          over =
              subst
                (λ (price : ℤ).
                  (is_filled ((match_levels dealloc n side p ls r.1).1.orders p) ≡ true)
                  ⊎ Prices (λ x. better (opposite side) price x ≡ true)
                      (match_levels dealloc n side p ls r.1).0)
                (done.kept.prices p) later.over;
        })
    | inr (l', e, front, full) ↦
        rw (e, match_levels_done n ((q, l') ∷ ls) r.1 full)
          (record {
            kept = done.kept;
            among = λ P k. k;
            sorted = λ k. k;
            live = (front, live.1);
            over = inl full;
          })
  ]

  -- With a round for each level and one more test, the loop ends.
  pub match_levels-Swept :
      (n : ℕ) (ls : Levels) (s : State M)
      → length ls < n
      → Sorted (opposite side) ls
      → All HasFront ls
      → Swept (s.orders p).price s ls (match_levels dealloc n side p ls s)
  unfolding match_levels
  match_levels-Swept zero ls s enough sorted live = absurd (omega arith)
  match_levels-Swept (suc n) [] s enough sorted live = record {
    kept = Keeps-self s;
    among = λ P k. k;
    sorted = λ k. k;
    live = tt;
    over = inr tt;
  }
  match_levels-Swept (suc n) ((q, l) ∷ ls) s enough sorted live =
      if_both (Swept (s.orders p).price s ((q, l) ∷ ls))
        (is_filled (s.orders p) || better (opposite side) (s.orders p).price q) _ _
        (λ t. Swept-stopped q l ls s sorted live _ _ refl refl t)
        (λ _.
          Swept-round n q l ls s (match_best dealloc side p q l ls s)
            (match_best-BestDone q l ls s live.0) sorted live
            (λ t. match_levels-Swept n ls t (omega arith) sorted.1 live.1))
