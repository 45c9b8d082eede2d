-- ===== src/Engine/Ring/Fifo.antt =====
-- What comes out of the ring over a whole schedule.
use mathlib.Core.List.{append_assoc, append-nil}
use matching_machine.Prelude.{
  ℕ, suc, ◌≤◌, ◌≡◌, refl, sym, ap, ◌∙◌, subst, List, [], ◌∷◌, ◌++◌, length, arith,
}
use matching_machine.Engine.Ring.{
  Ring, Event, silent, pushed, refused, popped, missed, Turn, new, step, run,
}
use matching_machine.Engine.Ring.Window.{dist-lt, window}
use matching_machine.Engine.Ring.Invariant.{IsValid, queue, new-IsValid}
use matching_machine.Engine.Ring.Refines.{Accepts, step-IsValid, length-queue}

module _ {A : Type 0} where
  -- The items of the pushes that returned true, in order, and of the pops.
  abbrev pub pushes : List (Event A) → List A
  pushes [] = []
  pushes (pushed item ∷ events) = item ∷ pushes events
  pushes (event ∷ events) = pushes events

  abbrev pub pops : List (Event A) → List A
  pops [] = []
  pops (popped item ∷ events) = item ∷ pops events
  pops (event ∷ events) = pops events

  one_event :
      (c : ℕ) (q : List A) (event : Event A) (q' : List A) (events : List (Event A)) (q'' : List A)
      → Accepts c q event q'
      → q' ++ pushes events ≡ pops events ++ q''
      → q ++ pushes (event ∷ events) ≡ pops (event ∷ events) ++ q''
  one_event c q silent q' events q'' h e = rw h at e
  one_event c q (pushed item) q' events q'' h e =
      sym (append_assoc q (item ∷ []) (pushes events)) ∙ rw h.1 at e
  one_event c q refused q' events q'' h e = rw h.1 at e
  one_event c q (popped item) q' events q'' h e = rw h (ap (λ (xs : List A). item ∷ xs) e)
  one_event c q missed q' events q'' h e = rw h.0 (rw h.1 at e)

  run_fifo :
      (turns : List (Turn A)) (s : Ring A)
      → IsValid s
      → IsValid (run turns s).1
        × ((run turns s).1.capacity ≡ s.capacity)
        × (queue s ++ pushes (run turns s).0 ≡ pops (run turns s).0 ++ queue (run turns s).1)
  unfolding run
  run_fifo [] s v = (v, refl, append-nil (queue s))
  run_fifo (turn ∷ turns) s v =
      let (v', c', now) = step-IsValid turn s v in
      let (v'', c'', later) = run_fifo turns (step turn s).1 v' in
      (v'', c'' ∙ c', one_event _ (queue s) (step turn s).0 _ _ _ now later)

  queue-new : (capacity : ℕ) (default : A) → queue (new capacity default) ≡ []
  unfolding queue new window
  queue-new capacity default = refl

  capacity-new : (capacity : ℕ) (default : A) → (new capacity default).capacity ≡ capacity
  unfolding new
  capacity-new capacity default = refl

  queue_bound :
      (capacity : ℕ) (s : Ring A)
      → IsValid s
      → s.capacity ≡ capacity
      → suc (length (queue s)) ≤ capacity
  queue_bound capacity s v e =
      omega (arith, length-queue s, dist-lt s.capacity s.head s.tail v.head_in v.tail_in)

  -- Over any schedule of the two threads from a new ring of capacity at least two, the items of
  -- the pushes that returned true are those of the pops that returned true, in the same order,
  -- followed by the items still in the ring, of which there are at most `capacity - 1`.
  pub run-pushes :
      (capacity : ℕ) (default : A) (turns : List (Turn A))
      → 2 ≤ capacity
      → let (events, s) = run turns (new capacity default) in
        (pushes events ≡ pops events ++ queue s) × (suc (length (queue s)) ≤ capacity)
  run-pushes capacity default turns h =
      let s = new capacity default in
      let (v, kept, all) = run_fifo turns s (new-IsValid capacity default h) in
      (
        subst
            (λ (q : List A).
              q ++ pushes (run turns s).0 ≡ pops (run turns s).0 ++ queue (run turns s).1)
            (queue-new capacity default) all,
        queue_bound capacity (run turns s).1 v (kept ∙ capacity-new capacity default),
      )
