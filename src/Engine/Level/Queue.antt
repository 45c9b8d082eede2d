-- ===== src/Engine/Level/Queue.antt =====
-- A price level holds a queue of the orders that are not cancelled.
use matching_machine.Prelude.{
  ℕ, ◌≡◌, refl, ap, ◌∙◌, Bool, Option, none, some, List, [], ◌∷◌, ◌++◌, get_elem?, if◌then◌else◌,
  Bool-cases, inl, inr,
}
use matching_machine.Engine.Level.{
  PriceLevel, push, pointer, front, pop_front, empty, clear_first, remove,
}
use matching_machine.Engine.Level.Pending.{
  IsReady, StartsLive, pending, live, queue, rest, is_nil, live-trim, pending-push,
  pending-pop_front, pending-remove, front-pending, empty-pending, pop_front-IsReady, push-IsReady,
  remove-IsReady,
}

-- The queue's own operations.
abbrev pub first : List ℕ → Option ℕ
first [] = none
first (o ∷ os) = some o

abbrev pub others : List ℕ → List ℕ
others [] = []
others (o ∷ os) = os

abbrev pub delete_first : (ℕ → Bool) → List ℕ → List ℕ
delete_first is_it [] = []
delete_first is_it (o ∷ os) = if is_it o then os else o ∷ delete_first is_it os

live-append : (os : List (Option ℕ)) (o : ℕ) → live (os ++ some o ∷ []) ≡ live os ++ o ∷ []
live-append [] o = refl
live-append (none ∷ os) o = live-append os o
live-append (some p ∷ os) o = ap (λ (xs : List ℕ). p ∷ xs) (live-append os o)

live-clear_first :
    (is_it : ℕ → Bool) (os : List (Option ℕ))
    → live (clear_first is_it os) ≡ delete_first is_it (live os)
live-clear_first is_it [] = refl
live-clear_first is_it (none ∷ os) = live-clear_first is_it os
live-clear_first is_it (some o ∷ os) = elim (Bool-cases (is_it o)) [
  | inl e ↦ rw e refl
  | inr e ↦ rw e (ap (λ (xs : List ℕ). o ∷ xs) (live-clear_first is_it os))
]

live-rest : (os : List (Option ℕ)) → StartsLive os → live (rest os) ≡ others (live os)
live-rest [] h = refl
live-rest (none ∷ os) h = elim h [ ]
live-rest (some o ∷ os) h = refl

first-live : (os : List (Option ℕ)) → StartsLive os → pointer (get_elem? os 0) ≡ first (live os)
first-live [] h = refl
first-live (none ∷ os) h = elim h [ ]
first-live (some o ∷ os) h = refl

is_nil-live : (os : List (Option ℕ)) → StartsLive os → is_nil os ≡ is_nil (live os)
is_nil-live [] h = refl
is_nil-live (none ∷ os) h = elim h [ ]
is_nil-live (some o ∷ os) h = refl

-- On a level whose cursor is in range and at no hole, `front` and `empty` are those of the queue of
-- the orders that are not cancelled, `pop_front` takes its first order, `push` adds one at its end,
-- and `remove` deletes the first that the test knows, whatever holes lie between and whether or not
-- the vector is compacted; and each of them leaves the cursor in range and at no hole.
pub IsReady-queue :
    (l : PriceLevel) (o : ℕ) (is_it : ℕ → Bool)
    → IsReady l
    → (front l ≡ first (queue l))
      × (empty l ≡ is_nil (queue l))
      × (queue (pop_front l) ≡ others (queue l))
      × (queue (push o l) ≡ queue l ++ o ∷ [])
      × (queue (remove is_it l) ≡ delete_first is_it (queue l))
      × IsReady (pop_front l)
      × IsReady (push o l)
      × IsReady (remove is_it l)
IsReady-queue l o is_it r = (
  front-pending l ∙ first-live (pending l) r.starts,
  empty-pending l ∙ is_nil-live (pending l) r.starts,
  ap live (pending-pop_front l) ∙ live-trim (rest (pending l)) ∙ live-rest (pending l) r.starts,
  ap live (pending-push o l r.cursor) ∙ live-append (pending l) o,
  ap live (pending-remove is_it l r.cursor)
      ∙ live-trim (clear_first is_it (pending l))
      ∙ live-clear_first is_it (pending l),
  pop_front-IsReady l r,
  push-IsReady o l r,
  remove-IsReady is_it l r,
)
