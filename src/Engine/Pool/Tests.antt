-- ===== src/Engine/Pool/Tests.antt =====
-- A pool of three slots, and the theorem on it.
use matching_machine.Prelude.{◌≡◌, refl, none, some, [], ◌∷◌, arith}
use matching_machine.Engine.Pool.{
  Pool, new_pool, allocate, deallocate, Reached, built, allocated, deallocated,
}
use matching_machine.Engine.Pool.Slots.{IsValid, Allocated, Reached-Allocated}

abbrev first : Pool
first = (allocate (new_pool 3)).0

abbrev second : Pool
second = (allocate first).0

-- Slot 0 is given back and handed out again, in front of slot 2.
abbrev third : Pool
third = deallocate (some 0) second

allocate-third : (allocate third).1 ≡ some 0
unfolding new_pool allocate deallocate
allocate-third = refl

allocate_all : (allocate (allocate (allocate third).0).0).1 ≡ none
unfolding new_pool allocate deallocate
allocate_all = refl

third-Reached : Reached 3 third (1 ∷ [])
unfolding new_pool allocate
third-Reached =
    deallocated second (1 ∷ 0 ∷ []) 0
      (allocated first (0 ∷ []) 1 (allocated (new_pool 3) [] 0 built refl) refl) refl

Reached-Allocated_example : IsValid 3 third (1 ∷ []) × Allocated 3 (1 ∷ []) (allocate third)
Reached-Allocated_example = Reached-Allocated 3 third (1 ∷ []) (omega arith) third-Reached
