-- ===== src/Engine/Ring/Returns.antt =====
-- Calls of the ring return, whatever the other thread does.
use matching_machine.Prelude.{
  ℕ, suc, ◌+◌, ◌≤◌, ◌≡◌, refl, sym, ap, subst, Bool, true, false, List, [], ◌∷◌, count, any, arith,
  if◌then◌else◌, Bool-cases, inl, inr,
}
use matching_machine.Engine.Ring.{
  Ring, Producer, Consumer, Event, pushed, refused, popped, missed, Turn, call_push, produce,
  call_pop, consume, start_push, start_pop, produce_at, consume_at, step, run,
}

module _ {A : Type 0} where
  abbrev pub is_produce : Turn A → Bool
  is_produce produce = true
  is_produce turn = false

  abbrev pub is_consume : Turn A → Bool
  is_consume consume = true
  is_consume turn = false

  abbrev pub push_returns : Event A → Bool
  push_returns (pushed item) = true
  push_returns refused = true
  push_returns event = false

  abbrev pub pop_returns : Event A → Bool
  pop_returns (popped item) = true
  pop_returns missed = true
  pop_returns event = false

  -- How many accesses a call has left at most; none outside a call.
  abbrev push_left : Producer A → ℕ
  push_left Producer.idle = 0
  push_left (Producer.loaded item tail) = 3
  push_left (Producer.checked item tail next_tail) = 2
  push_left (Producer.written item next_tail) = 1

  abbrev pop_left : Consumer A → ℕ
  pop_left Consumer.idle = 0
  pop_left (Consumer.loaded head) = 3
  pop_left (Consumer.checked head) = 2
  pop_left (Consumer.taken item head) = 1

  consume_at_producer : (pc : Consumer A) (s : Ring A) → (consume_at pc s).1.producer ≡ s.producer
  unfolding consume_at
  consume_at_producer Consumer.idle s = refl
  consume_at_producer (Consumer.loaded h) s = ground arith
  consume_at_producer (Consumer.checked h) s = refl
  consume_at_producer (Consumer.taken x h) s = refl

  start_pop_producer : (pc : Consumer A) (s : Ring A) → (start_pop pc s).producer ≡ s.producer
  unfolding start_pop
  start_pop_producer Consumer.idle s = refl
  start_pop_producer (Consumer.loaded h) s = refl
  start_pop_producer (Consumer.checked h) s = refl
  start_pop_producer (Consumer.taken x h) s = refl

  produce_at_consumer : (pc : Producer A) (s : Ring A) → (produce_at pc s).1.consumer ≡ s.consumer
  unfolding produce_at
  produce_at_consumer Producer.idle s = refl
  produce_at_consumer (Producer.loaded x t) s = ground arith
  produce_at_consumer (Producer.checked x t n) s = refl
  produce_at_consumer (Producer.written x n) s = refl

  start_push_consumer :
      (item : A) (pc : Producer A) (s : Ring A) → (start_push item pc s).consumer ≡ s.consumer
  unfolding start_push
  start_push_consumer item Producer.idle s = refl
  start_push_consumer item (Producer.loaded x t) s = refl
  start_push_consumer item (Producer.checked x t n) s = refl
  start_push_consumer item (Producer.written x n) s = refl

  -- Within a call one access is one fewer left, or the call returns.
  produce_progress :
      (pc : Producer A) (s : Ring A)
      → 1 ≤ push_left pc
      → push_returns (produce_at pc s).0 ≡ false
      → (suc (push_left (produce_at pc s).1.producer) ≡ push_left pc)
        × (1 ≤ push_left (produce_at pc s).1.producer)
  unfolding produce_at
  produce_progress Producer.idle s h e = absurd (omega arith)
  produce_progress (Producer.loaded x t) s h e = ground arith
  produce_progress (Producer.checked x t n) s h e = (refl, omega arith)
  produce_progress (Producer.written x n) s h e = cc

  start_push_busy :
      (item : A) (pc : Producer A) (s : Ring A)
      → s.producer ≡ pc
      → 1 ≤ push_left pc
      → push_left (start_push item pc s).producer ≡ push_left pc
  unfolding start_push
  start_push_busy item Producer.idle s q h = absurd (omega arith)
  start_push_busy item (Producer.loaded x t) s q h = rw q refl
  start_push_busy item (Producer.checked x t n) s q h = rw q refl
  start_push_busy item (Producer.written x n) s q h = rw q refl

  consume_progress :
      (pc : Consumer A) (s : Ring A)
      → 1 ≤ pop_left pc
      → pop_returns (consume_at pc s).0 ≡ false
      → (suc (pop_left (consume_at pc s).1.consumer) ≡ pop_left pc)
        × (1 ≤ pop_left (consume_at pc s).1.consumer)
  unfolding consume_at
  consume_progress Consumer.idle s h e = absurd (omega arith)
  consume_progress (Consumer.loaded head) s h e = ground arith
  consume_progress (Consumer.checked head) s h e = (refl, omega arith)
  consume_progress (Consumer.taken x head) s h e = cc

  start_pop_busy :
      (pc : Consumer A) (s : Ring A)
      → s.consumer ≡ pc
      → 1 ≤ pop_left pc
      → pop_left (start_pop pc s).consumer ≡ pop_left pc
  unfolding start_pop
  start_pop_busy Consumer.idle s q h = absurd (omega arith)
  start_pop_busy (Consumer.loaded head) s q h = rw q refl
  start_pop_busy (Consumer.checked head) s q h = rw q refl
  start_pop_busy (Consumer.taken x head) s q h = rw q refl

  -- A turn ends the push, or leaves as many accesses fewer as it makes.
  push_turn :
      (turn : Turn A) (s : Ring A)
      → 1 ≤ push_left s.producer
      → push_returns (step turn s).0 ≡ false
      → (push_left (step turn s).1.producer + (if is_produce turn then 1 else 0)
          ≡ push_left s.producer)
        × (1 ≤ push_left (step turn s).1.producer)
  unfolding step
  push_turn (call_push item) s h e = omega (arith, start_push_busy item s.producer s refl h)
  push_turn produce s h e = omega (arith, produce_progress s.producer s h e)
  push_turn call_pop s h e = omega (arith, ap push_left (start_pop_producer s.consumer s))
  push_turn consume s h e = omega (arith, ap push_left (consume_at_producer s.consumer s))

  pop_turn :
      (turn : Turn A) (s : Ring A)
      → 1 ≤ pop_left s.consumer
      → pop_returns (step turn s).0 ≡ false
      → (pop_left (step turn s).1.consumer + (if is_consume turn then 1 else 0)
          ≡ pop_left s.consumer)
        × (1 ≤ pop_left (step turn s).1.consumer)
  unfolding step
  pop_turn (call_push item) s h e =
      omega (arith, ap pop_left (start_push_consumer item s.producer s))
  pop_turn produce s h e = omega (arith, ap pop_left (produce_at_consumer s.producer s))
  pop_turn call_pop s h e = omega (arith, start_pop_busy s.consumer s refl h)
  pop_turn consume s h e = omega (arith, consume_progress s.consumer s h e)

  push_ends :
      (turns : List (Turn A)) (s : Ring A)
      → 1 ≤ push_left s.producer
      → push_left s.producer ≤ count is_produce turns
      → any push_returns (run turns s).0 ≡ true
  unfolding run
  push_ends [] s busy h = absurd (omega arith)
  push_ends (turn ∷ turns) s busy h = elim (Bool-cases (push_returns (step turn s).0)) [
    | inl returned ↦ rw returned refl
    | inr going ↦
        let (fewer, still) = push_turn turn s busy going in
        rw going (push_ends turns (step turn s).1 still (ground arith))
  ]

  pop_ends :
      (turns : List (Turn A)) (s : Ring A)
      → 1 ≤ pop_left s.consumer
      → pop_left s.consumer ≤ count is_consume turns
      → any pop_returns (run turns s).0 ≡ true
  unfolding run
  pop_ends [] s busy h = absurd (omega arith)
  pop_ends (turn ∷ turns) s busy h = elim (Bool-cases (pop_returns (step turn s).0)) [
    | inl returned ↦ rw returned refl
    | inr going ↦
        let (fewer, still) = pop_turn turn s busy going in
        rw going (pop_ends turns (step turn s).1 still (ground arith))
  ]

  -- Both calls are wait-free: from any state of the ring, a push that starts outside a push returns
  -- within three accesses of the producer, and a pop that starts outside a pop within three
  -- accesses of the consumer, wherever the other thread stands and whatever it does in between.
  pub run-returns :
      (item : A) (turns : List (Turn A)) (s t : Ring A)
      → s.producer ≡ Producer.idle
      → t.consumer ≡ Consumer.idle
      → 3 ≤ count is_produce turns
      → 3 ≤ count is_consume turns
      → (any push_returns (run (call_push item ∷ turns) s).0 ≡ true)
        × (any pop_returns (run (call_pop ∷ turns) t).0 ≡ true)
  unfolding run step start_push start_pop
  run-returns item turns s t p c np nc = (
    subst (λ pc. any push_returns (run turns (start_push item pc s)).0 ≡ true) (sym p)
        (push_ends turns _ (omega arith) (omega arith)),
    subst (λ pc. any pop_returns (run turns (start_pop pc t)).0 ≡ true) (sym c)
        (pop_ends turns _ (omega arith) (omega arith)),
  )
