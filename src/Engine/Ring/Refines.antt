-- ===== src/Engine/Ring/Refines.antt =====
-- Every access of either thread does what the bounded queue does.
use matching_machine.Prelude.{
  ℕ, suc, ◌<◌, ◌≡◌, ◌≢◌, refl, sym, ap, ◌∙◌, subst, Bool, true, false, List, [], ◌∷◌, ◌++◌, length,
  eq_nil_of_length, arith, ◌==◌, ==_iff, if◌then◌else◌,
}
use matching_machine.Engine.Ring.{
  Ring, Producer, Consumer, Event, silent, pushed, refused, popped, missed, Turn, call_push,
  produce, call_pop, consume, next, write, start_push, start_pop, produce_at, consume_at, step,
}
use matching_machine.Engine.Ring.Window.{
  dist, dist-lt, dist_self, window, next-lt, next_inj, dist-next_head, dist-next_tail, dist_full,
  length-window, window-write, window_snoc,
}
use matching_machine.Engine.Ring.Invariant.{IsValid, ProducerKnows, ConsumerKnows, queue}

-- A queue of at most `capacity - 1` elements: what it holds before and after an event.
abbrev pub Accepts : {A : Type 0} → ℕ → List A → Event A → List A → Type 0
Accepts capacity q silent q' = q' ≡ q
Accepts capacity q (pushed item) q' = (suc (length q) < capacity) × (q' ≡ q ++ item ∷ [])
Accepts capacity q refused q' = (suc (length q) ≡ capacity) × (q' ≡ q)
Accepts capacity q (popped item) q' = q ≡ item ∷ q'
Accepts capacity q missed q' = (q ≡ []) × (q' ≡ [])

module _ {A : Type 0} where
  -- What a turn is to keep and to do.
  abbrev Refines : Ring A → Event A × Ring A → Type 0
  Refines s r =
      IsValid r.1 × (r.1.capacity ≡ s.capacity) × Accepts s.capacity (queue s) r.0 (queue r.1)

  -- What the consumer knows outlives the producer's write and store.
  consuming-write :
      (pc : Consumer A) (s : Ring A) (item : A) (n : ℕ)
      → ConsumerKnows s pc
      → ConsumerKnows
          (record s { buffer = write s.buffer s.tail item; producer = Producer.written item n })
          pc
  consuming-write Consumer.idle s item n k = tt
  consuming-write (Consumer.loaded h) s item n k = k
  consuming-write (Consumer.checked h) s item n k = k
  consuming-write (Consumer.taken x h) s item n k = ground arith

  consuming_store :
      (pc : Consumer A) (s : Ring A) (n : ℕ)
      → n ≢ s.head
      → ConsumerKnows s pc
      → ConsumerKnows (record s { tail = n; producer = Producer.idle }) pc
  consuming_store Consumer.idle s n ne k = tt
  consuming_store (Consumer.loaded h) s n ne k = k
  consuming_store (Consumer.checked h) s n ne k = (k.0, λ e. ne (sym e ∙ k.0))
  consuming_store (Consumer.taken x h) s n ne k = (k.0, λ e. ne (sym e ∙ k.0), k.2)

  pub length-queue : (s : Ring A) → length (queue s) ≡ dist s.capacity s.head s.tail
  unfolding queue
  length-queue s = length-window s.capacity s.buffer s.head _

  write-Refines :
      (item : A) (n : ℕ) (s : Ring A)
      → IsValid s
      → ProducerKnows s (Producer.checked item s.tail n)
      → Refines s (produce_at (Producer.checked item s.tail n) s)
  unfolding produce_at queue
  write-Refines item n s v k = (
    record {
      at_least_two = v.at_least_two;
      head_in = v.head_in;
      tail_in = v.tail_in;
      producing = (k.1, k.2, ground arith);
      consuming = consuming-write s.consumer s item n v.consuming;
    },
    refl,
    window-write _ s.buffer item s.head s.tail _ v.head_in v.tail_in (omega arith),
  )

  store-Refines :
      (item : A) (n : ℕ) (s : Ring A)
      → IsValid s
      → ProducerKnows s (Producer.written item n)
      → Refines s (produce_at (Producer.written item n) s)
  unfolding produce_at queue
  store-Refines item n s v (next_tail, room, stored) =
      let ne : next s.capacity s.tail ≢ s.head = λ e. room (next_tail ∙ e) in
      let longer : dist s.capacity s.head n ≡ suc (dist s.capacity s.head s.tail) =
        rw next_tail (dist-next_tail s.capacity s.head s.tail v.head_in v.tail_in ne) in
      let inside : n < s.capacity = rw next_tail (next-lt s.capacity s.tail v.tail_in) in
      (
        record {
          at_least_two = v.at_least_two;
          head_in = v.head_in;
          tail_in = inside;
          producing = tt;
          consuming = consuming_store s.consumer s n room v.consuming;
        },
        refl,
        (
          omega (arith, length-queue s, longer, dist-lt s.capacity s.head n v.head_in inside),
          rw
              (
                longer,
                window_snoc s.capacity s.buffer s.head s.tail _ v.head_in v.tail_in refl,
                stored,
              )
              refl,
        ),
      )

  check_push-Refines :
      (item : A) (s : Ring A) (b : Bool)
      → (next s.capacity s.tail == s.head) ≡ b
      → IsValid s
      → Refines s (
          if b then (refused, record s { producer = Producer.idle }) else (
            silent,
            record s { producer = Producer.checked item s.tail (next s.capacity s.tail) },
          ))
  unfolding queue
  check_push-Refines item s true e v = (
    record {
      at_least_two = v.at_least_two;
      head_in = v.head_in;
      tail_in = v.tail_in;
      producing = tt;
      consuming = v.consuming;
    },
    refl,
    (
      omega (
        arith,
        length-queue s,
        v.at_least_two,
        dist_full s.capacity s.head s.tail v.head_in v.tail_in ((==_iff _ _).0 e),
      ),
      refl,
    ),
  )
  check_push-Refines item s false e v = (
    record {
      at_least_two = v.at_least_two;
      head_in = v.head_in;
      tail_in = v.tail_in;
      producing = (refl, refl, ground arith);
      consuming = v.consuming;
    },
    refl,
    refl,
  )

  call_push-Refines :
      (item : A) (pc : Producer A) (s : Ring A)
      → IsValid s
      → Refines s (silent, start_push item pc s)
  unfolding start_push queue
  call_push-Refines item Producer.idle s v = (
    record {
      at_least_two = v.at_least_two;
      head_in = v.head_in;
      tail_in = v.tail_in;
      producing = refl;
      consuming = v.consuming;
    },
    refl,
    refl,
  )
  call_push-Refines item (Producer.loaded x t) s v = (v, refl, refl)
  call_push-Refines item (Producer.checked x t n) s v = (v, refl, refl)
  call_push-Refines item (Producer.written x n) s v = (v, refl, refl)

  produce-Refines :
      (pc : Producer A) (s : Ring A) → IsValid s → ProducerKnows s pc → Refines s (produce_at pc s)
  unfolding produce_at
  produce-Refines Producer.idle s v k = (v, refl, refl)
  produce-Refines (Producer.loaded item t) s v k =
      subst (λ t. Refines s (produce_at (Producer.loaded item t) s)) (sym k)
        (check_push-Refines item s _ refl v)
  produce-Refines (Producer.checked item t n) s v k =
      subst (λ t. Refines s (produce_at (Producer.checked item t n) s)) (sym k.0)
        (write-Refines item n s v (refl, k.1, k.2))
  produce-Refines (Producer.written item n) s v k = store-Refines item n s v k

  -- What the producer knows outlives the consumer's store.
  producing_store :
      (pc : Producer A) (s : Ring A)
      → next s.capacity s.tail ≢ next s.capacity s.head
      → ProducerKnows s pc
      → ProducerKnows (record s { head = next s.capacity s.head; consumer = Consumer.idle }) pc
  producing_store Producer.idle s ne k = tt
  producing_store (Producer.loaded x t) s ne k = k
  producing_store (Producer.checked x t n) s ne k = (k.0, k.1, λ e. ne (sym k.1 ∙ e))
  producing_store (Producer.written x n) s ne k = (k.0, λ e. ne (sym k.0 ∙ e), k.2)

  call_pop-Refines : (pc : Consumer A) (s : Ring A) → IsValid s → Refines s (silent, start_pop pc s)
  unfolding start_pop queue
  call_pop-Refines Consumer.idle s v = (
    record {
      at_least_two = v.at_least_two;
      head_in = v.head_in;
      tail_in = v.tail_in;
      producing = v.producing;
      consuming = refl;
    },
    refl,
    refl,
  )
  call_pop-Refines (Consumer.loaded h) s v = (v, refl, refl)
  call_pop-Refines (Consumer.checked h) s v = (v, refl, refl)
  call_pop-Refines (Consumer.taken x h) s v = (v, refl, refl)

  check_pop-Refines :
      (s : Ring A) (b : Bool)
      → (s.head == s.tail) ≡ b
      → IsValid s
      → Refines s (
          if b
          then (missed, record s { consumer = Consumer.idle })
          else (silent, record s { consumer = Consumer.checked s.head }))
  unfolding queue
  check_pop-Refines s true e v =
      let none : queue s ≡ [] = eq_nil_of_length _ (
        length-queue s
        ∙ subst (λ t. dist s.capacity s.head t ≡ 0) ((==_iff s.head s.tail).0 e)
            (dist_self s.capacity s.head)) in
      (
        record {
          at_least_two = v.at_least_two;
          head_in = v.head_in;
          tail_in = v.tail_in;
          producing = v.producing;
          consuming = tt;
        },
        refl,
        (none, none),
      )
  check_pop-Refines s false e v = (
    record {
      at_least_two = v.at_least_two;
      head_in = v.head_in;
      tail_in = v.tail_in;
      producing = v.producing;
      consuming = (refl, ground arith);
    },
    refl,
    refl,
  )

  read-Refines :
      (s : Ring A)
      → IsValid s
      → s.head ≢ s.tail
      → Refines s (consume_at (Consumer.checked s.head) s)
  unfolding consume_at queue
  read-Refines s v ne = (
    record {
      at_least_two = v.at_least_two;
      head_in = v.head_in;
      tail_in = v.tail_in;
      producing = v.producing;
      consuming = (refl, ne, refl);
    },
    refl,
    refl,
  )

  advance-Refines :
      (item : A) (s : Ring A)
      → IsValid s
      → s.head ≢ s.tail
      → s.buffer s.head ≡ item
      → Refines s (consume_at (Consumer.taken item s.head) s)
  unfolding consume_at queue window
  advance-Refines item s v ne taken =
      let shorter = dist-next_head s.capacity s.head s.tail v.head_in v.tail_in ne in
      (
        record {
          at_least_two = v.at_least_two;
          head_in = next-lt s.capacity s.head v.head_in;
          tail_in = v.tail_in;
          producing =
              producing_store s.producer s
                (λ e. ne (sym (next_inj s.capacity s.tail s.head v.tail_in v.head_in e)))
                v.producing;
          consuming = tt;
        },
        refl,
        rw (shorter, taken) refl,
      )

  consume-Refines :
      (pc : Consumer A) (s : Ring A) → IsValid s → ConsumerKnows s pc → Refines s (consume_at pc s)
  unfolding consume_at
  consume-Refines Consumer.idle s v k = (v, refl, refl)
  consume-Refines (Consumer.loaded h) s v k =
      subst (λ h. Refines s (consume_at (Consumer.loaded h) s)) (sym k)
        (check_pop-Refines s _ refl v)
  consume-Refines (Consumer.checked h) s v k =
      subst (λ h. Refines s (consume_at (Consumer.checked h) s)) (sym k.0)
        (read-Refines s v (λ e. k.1 (k.0 ∙ e)))
  consume-Refines (Consumer.taken x h) s v k =
      subst (λ h. Refines s (consume_at (Consumer.taken x h) s)) (sym k.0)
        (advance-Refines x s v (λ e. k.1 (k.0 ∙ e)) (ap s.buffer (sym k.0) ∙ k.2))

  -- In a valid ring, whichever thread has the next access and wherever both stand in their calls,
  -- the ring stays valid and keeps its capacity, and the elements in it change as in a queue: a
  -- push that returns true adds its item at the end of a queue with room, one that returns false
  -- met a queue of `capacity - 1` elements, a pop that returns true takes the first element, one
  -- that returns false met an empty queue, and any other access changes nothing.
  pub step-IsValid :
      (turn : Turn A) (s : Ring A)
      → IsValid s
      → IsValid (step turn s).1
        × ((step turn s).1.capacity ≡ s.capacity)
        × Accepts s.capacity (queue s) (step turn s).0 (queue (step turn s).1)
  unfolding step
  step-IsValid (call_push item) s v = call_push-Refines item s.producer s v
  step-IsValid produce s v = produce-Refines s.producer s v v.producing
  step-IsValid call_pop s v = call_pop-Refines s.consumer s v
  step-IsValid consume s v = consume-Refines s.consumer s v v.consuming
