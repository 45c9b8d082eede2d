-- ===== src/Engine/Ring.antt =====
-- include/spsc_ring_buffer.h: the ring between one producer thread and one consumer thread. Each
-- call is the sequence of its atomic accesses, and a schedule says whose access comes next.
pub mod Window
pub mod Invariant
pub mod Refines
pub mod Fifo
pub mod Returns
pub mod Size
mod Tests
use matching_machine.Prelude.{ℕ, suc, ◌+◌, ◌-◌, ◌%◌, ◌^◌, Bool, List, [], ◌∷◌, ◌==◌, if◌then◌else◌}

-- Where the producer stands in `try_push(item)`.
pub data Producer (A : Type 0) : Type 0 where
  -- outside a call
  idle : Producer A
  -- `tail` is read
  loaded : A → ℕ → Producer A
  -- the ring is not full; `tail` and `next_tail`
  checked : A → ℕ → ℕ → Producer A
  -- `buffer_[tail]` is written; `next_tail`
  written : A → ℕ → Producer A

-- Where the consumer stands in `try_pop(item)`.
pub data Consumer (A : Type 0) : Type 0 where
  idle : Consumer A
  loaded : ℕ → Consumer A
  checked : ℕ → Consumer A
  -- `buffer_[head]` is read
  taken : A → ℕ → Consumer A

pub record Ring (A : Type 0) : Type 0 where
  pub capacity : ℕ
  pub head : ℕ
  pub tail : ℕ
  pub buffer : ℕ → A
  pub producer : Producer A
  pub consumer : Consumer A

-- What a turn shows outside: a call that returns, with its result.
pub data Event (A : Type 0) : Type 0 where
  silent : Event A
  pushed : A → Event A
  refused : Event A
  popped : A → Event A
  missed : Event A

-- Whose access is next.
pub data Turn (A : Type 0) : Type 0 where
  call_push : A → Turn A
  produce : Turn A
  call_pop : Turn A
  consume : Turn A

-- `(i + 1) & mask_`, where the capacity is a power of two.
unfoldable pub next : ℕ → ℕ → ℕ
next capacity i = (i + 1) % capacity

module _ {A : Type 0} where
  -- The array with one element written.
  abbrev pub write : (ℕ → A) → ℕ → A → ℕ → A
  write buffer i item j = if j == i then item else buffer j

  -- A new ring, whose slots hold `T{}`.
  unfoldable pub new : ℕ → A → Ring A
  new capacity default = record {
    capacity = capacity;
    head = 0;
    tail = 0;
    buffer = λ _. default;
    producer = Producer.idle;
    consumer = Consumer.idle;
  }

  -- A thread makes one call at a time: within a call, `call_push` and `call_pop` do nothing.
  start_push : A → Producer A → Ring A → Ring A
  start_push item Producer.idle s = record s { producer = Producer.loaded item s.tail }
  start_push item pc s = s

  start_pop : Consumer A → Ring A → Ring A
  start_pop Consumer.idle s = record s { consumer = Consumer.loaded s.head }
  start_pop pc s = s

  produce_at : Producer A → Ring A → Event A × Ring A
  produce_at Producer.idle s = (silent, s)
  produce_at (Producer.loaded item tail) s =
      let next_tail = next s.capacity tail in
      if next_tail == s.head
      then (refused, record s { producer = Producer.idle })
      else (silent, record s { producer = Producer.checked item tail next_tail })
  produce_at (Producer.checked item tail next_tail) s = (
    silent,
    record s { buffer = write s.buffer tail item; producer = Producer.written item next_tail },
  )
  produce_at (Producer.written item next_tail) s =
      (pushed item, record s { tail = next_tail; producer = Producer.idle })

  consume_at : Consumer A → Ring A → Event A × Ring A
  consume_at Consumer.idle s = (silent, s)
  consume_at (Consumer.loaded head) s =
      if head == s.tail
      then (missed, record s { consumer = Consumer.idle })
      else (silent, record s { consumer = Consumer.checked head })
  consume_at (Consumer.checked head) s =
      (silent, record s { consumer = Consumer.taken (s.buffer head) head })
  consume_at (Consumer.taken item head) s =
      (popped item, record s { head = next s.capacity head; consumer = Consumer.idle })

  unfoldable pub step : Turn A → Ring A → Event A × Ring A
  unfolding start_push start_pop produce_at consume_at
  step (call_push item) s = (silent, start_push item s.producer s)
  step produce s = produce_at s.producer s
  step call_pop s = (silent, start_pop s.consumer s)
  step consume s = consume_at s.consumer s

  -- The events of a schedule and the ring after it.
  unfoldable pub run : List (Turn A) → Ring A → List (Event A) × Ring A
  unfolding step
  run [] s = ([], s)
  run (turn ∷ turns) s =
      let (event, s') = step turn s in let (events, s'') = run turns s' in (event ∷ events, s'')

  -- `size()` and `empty()` at one moment; `size_t` has 64 bits.
  unfoldable pub size : Ring A → ℕ
  size s = (s.tail + 2 ^ 64 - s.head) % 2 ^ 64 % s.capacity

  unfoldable pub empty : Ring A → Bool
  empty s = s.head == s.tail
