-- ===== src/Engine/Pool.antt =====
-- include/memory_pool.h: a pool of slots with a list of the free ones. A pointer that `allocate` returns is
-- the index of its slot; the end of the free list, `kNull`, and a null pointer are `none`.
pub mod Chain
pub mod Slots
mod Tests
use matching_machine.Prelude.{
  ℕ, zero, suc, ◌+◌, ◌-◌, ◌≡◌, Bool, Option, none, some, List, [], ◌∷◌, ◌==◌, count, get_elem?, set,
  if◌then◌else◌,
}

pub record Pool : Type 0 where
  pub max_objects : ℕ
  pub free_list : List (Option ℕ)
  pub free_head : Option ℕ
  pub available : ℕ

-- The free list behind `init_free_list`: each slot from `i` on is followed by the next one.
unfoldable pub links_from : (i n : ℕ) → List (Option ℕ)
links_from i zero = []
links_from i (suc zero) = none ∷ []
links_from i (suc (suc n)) = some (suc i) ∷ links_from (suc i) (suc n)

-- The constructor, and `reset` of a pool of this size.
unfoldable pub new_pool : ℕ → Pool
unfolding links_from
new_pool max_objects = record {
  max_objects = max_objects;
  free_list = links_from 0 max_objects;
  free_head = some 0;
  available = max_objects;
}

-- `free_list_[idx]`, where a slot out of range, which no valid pool has, ends the list.
abbrev pub link_at : Option (Option ℕ) → Option ℕ
link_at none = none
link_at (some link) = link

unfoldable pub allocate_at : Pool → Option ℕ → Pool × Option ℕ
allocate_at p none = (p, none)
allocate_at p (some idx) = (
  record p { free_head = link_at (get_elem? p.free_list idx); available = p.available - 1 },
  some idx,
)

unfoldable pub allocate : Pool → Pool × Option ℕ
unfolding allocate_at
allocate p = allocate_at p p.free_head

unfoldable pub deallocate : Option ℕ → Pool → Pool
deallocate none p = p
deallocate (some idx) p = record p {
  free_list = set p.free_list idx p.free_head;
  free_head = some idx;
  available = p.available + 1;
}

unfoldable pub reset : Pool → Pool
unfolding new_pool
reset p = new_pool p.max_objects

-- How often a slot stands in a list.
abbrev pub occurrences : ℕ → List ℕ → ℕ
occurrences x slots = count (λ y. y == x) slots

abbrev pub without : ℕ → List ℕ → List ℕ
without x [] = []
without x (y ∷ slots) = if y == x then slots else y ∷ without x slots

-- The calls of a client that gives back only what it was given and still has; `used` are its slots.
pub data Reached (max_objects : ℕ) : Pool → List ℕ → Type 0 where
  built : Reached max_objects (new_pool max_objects) []
  allocated :
      (p : Pool) (used : List ℕ) (idx : ℕ)
      → Reached max_objects p used
      → (allocate p).1 ≡ some idx
      → Reached max_objects (allocate p).0 (idx ∷ used)
  exhausted :
      (p : Pool) (used : List ℕ)
      → Reached max_objects p used
      → (allocate p).1 ≡ none
      → Reached max_objects (allocate p).0 used
  deallocated :
      (p : Pool) (used : List ℕ) (idx : ℕ)
      → Reached max_objects p used
      → occurrences idx used ≡ 1
      → Reached max_objects (deallocate (some idx) p) (without idx used)
  forgotten :
      (p : Pool) (used : List ℕ) → Reached max_objects p used → Reached max_objects (reset p) []
