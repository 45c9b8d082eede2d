-- ===== src/Engine/Ring/Tests.antt =====
-- The ring on concrete schedules.
use matching_machine.Prelude.{
  ℕ, suc, ◌^◌, ◌+◌, ◌*◌, ◌≡◌, ◌≤◌, refl, true, List, [], ◌∷◌, ◌++◌, length, any, arith, ◌==◌,
}
use matching_machine.Engine.Ring.{
  Ring, Producer, Consumer, silent, pushed, refused, popped, missed, Turn, call_push, produce,
  call_pop, consume, new, next, step, run, size, empty,
}
use matching_machine.Engine.Ring.Invariant.{IsValid, queue, new-IsValid}
use matching_machine.Engine.Ring.Refines.{Accepts, step-IsValid}
use matching_machine.Engine.Ring.Fifo.{pushes, pops, run-pushes}
use matching_machine.Engine.Ring.Returns.{push_returns, pop_returns, run-returns}
use matching_machine.Engine.Ring.Size.{size-queue}

-- A ring of two slots, which holds one element.
abbrev small : Ring ℕ
small = new 2 0

-- The consumer looks while the producer is within its call, and again after it.
abbrev crossing : List (Turn ℕ)
crossing =
    call_push 7
    ∷ produce
    ∷ call_pop
    ∷ consume
    ∷ produce
    ∷ produce
    ∷ call_pop
    ∷ consume
    ∷ call_push 8
    ∷ produce
    ∷ consume
    ∷ consume
    ∷ []

run-crossing :
    (run crossing small).0
    ≡ silent
      ∷ silent
      ∷ silent
      ∷ missed
      ∷ silent
      ∷ pushed 7
      ∷ silent
      ∷ silent
      ∷ silent
      ∷ refused
      ∷ silent
      ∷ popped 7
      ∷ []
unfolding run new next
run-crossing = refl

step-IsValid_example :
    IsValid (step (call_push 3) small).1
    × ((step (call_push 3) small).1.capacity ≡ small.capacity)
    × Accepts small.capacity
        (queue small)
        (step (call_push 3) small).0
        (queue (step (call_push 3) small).1)
step-IsValid_example = step-IsValid (call_push 3) small (new-IsValid 2 0 (omega arith))

run-pushes_example :
    (pushes (run crossing (new 2 0)).0
      ≡ pops (run crossing (new 2 0)).0 ++ queue (run crossing (new 2 0)).1)
    × (suc (length (queue (run crossing (new 2 0)).1)) ≤ 2)
run-pushes_example = run-pushes 2 0 crossing (omega arith)

abbrev busy : List (Turn ℕ)
busy = produce ∷ consume ∷ produce ∷ consume ∷ produce ∷ consume ∷ []

new_idle : (small.producer ≡ Producer.idle) × (small.consumer ≡ Consumer.idle)
unfolding new
new_idle = (refl, refl)

run-returns_example :
    (any push_returns (run (call_push 5 ∷ busy) small).0 ≡ true)
    × (any pop_returns (run (call_pop ∷ busy) small).0 ≡ true)
run-returns_example =
    run-returns 5 busy small small new_idle.0 new_idle.1 (omega arith) (omega arith)

divides : 2 ^ 64 ≡ small.capacity + small.capacity * 9223372036854775807
unfolding new
divides = refl

size-queue_example :
    (size small ≡ length (queue small)) × (empty small ≡ (length (queue small) == 0))
size-queue_example = size-queue small 9223372036854775807 (new-IsValid 2 0 (omega arith)) divides
