-- ===== src/Engine/Ring/Invariant.antt =====
-- What holds between any two accesses of the ring.
use matching_machine.Prelude.{ℕ, ◌≤◌, ◌<◌, ◌≡◌, ◌≢◌, List, arith}
use matching_machine.Engine.Ring.{Ring, Producer, Consumer, new, next}
use matching_machine.Engine.Ring.Window.{dist, window}

module _ {A : Type 0} where
  -- The producer has read its own index, and within a call that goes on the ring is not full.
  abbrev pub ProducerKnows : Ring A → Producer A → Type 0
  ProducerKnows s Producer.idle = Unit
  ProducerKnows s (Producer.loaded item tail) = tail ≡ s.tail
  ProducerKnows s (Producer.checked item tail next_tail) =
      (tail ≡ s.tail) × (next_tail ≡ next s.capacity s.tail) × (next_tail ≢ s.head)
  ProducerKnows s (Producer.written item next_tail) =
      (next_tail ≡ next s.capacity s.tail) × (next_tail ≢ s.head) × (s.buffer s.tail ≡ item)

  -- So has the consumer, and within a call that goes on the ring is not empty.
  abbrev pub ConsumerKnows : Ring A → Consumer A → Type 0
  ConsumerKnows s Consumer.idle = Unit
  ConsumerKnows s (Consumer.loaded head) = head ≡ s.head
  ConsumerKnows s (Consumer.checked head) = (head ≡ s.head) × (head ≢ s.tail)
  ConsumerKnows s (Consumer.taken item head) =
      (head ≡ s.head) × (head ≢ s.tail) × (s.buffer head ≡ item)

  pub record IsValid (s : Ring A) : Type 0 where
    pub at_least_two : 2 ≤ s.capacity
    pub head_in : s.head < s.capacity
    pub tail_in : s.tail < s.capacity
    pub producing : ProducerKnows s s.producer
    pub consuming : ConsumerKnows s s.consumer

  -- The elements that are in the ring.
  unfoldable pub queue : Ring A → List A
  queue s = window s.capacity s.buffer s.head (dist s.capacity s.head s.tail)

  pub new-IsValid : (capacity : ℕ) (default : A) → 2 ≤ capacity → IsValid (new capacity default)
  unfolding new
  new-IsValid capacity default h = record {
    at_least_two = h;
    head_in = omega arith;
    tail_in = omega arith;
    producing = tt;
    consuming = tt;
  }
