-- ===== src/Engine/Pool/Slots.antt =====
-- No slot is handed out twice, and none is lost.
use matching_machine.Prelude.{
  ℕ, zero, suc, ◌+◌, ◌<◌, ◌≡◌, refl, sym, ap, ◌∙◌, subst, Option, none, some, List, [], ◌∷◌, ◌==◌,
  get_elem?-set_self, length, length-set, ltb, arith, if◌then◌else◌,
}
use matching_machine.Engine.Pool.{
  Pool, new_pool, link_at, allocate_at, allocate, deallocate, reset, occurrences, without, Reached,
  built, allocated, exhausted, deallocated, forgotten,
}
use matching_machine.Engine.Pool.Chain.{
  Links, Links-set, range_from, length-range_from, occurrences-range_from, length-links_from,
  Links-links_from,
}

occurrences-without :
    (x y : ℕ) (slots : List ℕ)
    → occurrences y slots ≡ 1
    → occurrences x (without y slots) + (if x == y then 1 else 0) ≡ occurrences x slots
occurrences-without x y [] h = absurd (omega arith)
occurrences-without x y (z ∷ slots) h = ground (arith, occurrences-without x y slots)

length-without :
    (y : ℕ) (slots : List ℕ)
    → occurrences y slots ≡ 1
    → suc (length (without y slots)) ≡ length slots
length-without y [] h = absurd (omega arith)
length-without y (z ∷ slots) h = ground (arith, length-without y slots)

-- A pool with some slots in use: the free list has all others, each once, and `available` counts them.
pub record IsValid (max_objects : ℕ) (p : Pool) (used : List ℕ) : Type 0 where
  pub size_is : p.max_objects ≡ max_objects
  pub room : length p.free_list ≡ max_objects
  pub chain : List ℕ
  pub links : Links p.free_list p.free_head chain
  pub left : p.available ≡ length chain
  pub all_slots : length chain + length used ≡ max_objects
  pub once :
      (x : ℕ) → occurrences x chain + occurrences x used ≡ (if ltb x max_objects then 1 else 0)

new_pool-IsValid : (n : ℕ) → 0 < n → IsValid n (new_pool n) []
unfolding new_pool
new_pool-IsValid zero h = absurd (omega arith)
new_pool-IsValid (suc n) h = record {
  size_is = refl;
  room = length-links_from 0 (suc n);
  chain = range_from 0 (suc n);
  links = Links-links_from (suc n) n 0 (omega arith);
  left = sym (length-range_from 0 (suc n));
  all_slots = omega (arith, length-range_from 0 (suc n));
  once = λ x. ground (arith, occurrences-range_from x 0 (suc n));
}

-- What an allocation gives: a null pointer only if all slots are in use, else a slot that is not.
abbrev pub Allocated : (max_objects : ℕ) → List ℕ → Pool × Option ℕ → Type 0
Allocated n used (p, none) = IsValid n p used × (length used ≡ n)
Allocated n used (p, some idx) = IsValid n p (idx ∷ used) × (occurrences idx used ≡ 0) × (idx < n)

take_head :
    (n : ℕ) (p : Pool) (used : List ℕ) (chain : List ℕ)
    → p.max_objects ≡ n
    → length p.free_list ≡ n
    → Links p.free_list p.free_head chain
    → p.available ≡ length chain
    → length chain + length used ≡ n
    → ((x : ℕ) → occurrences x chain + occurrences x used ≡ (if ltb x n then 1 else 0))
    → Allocated n used (allocate p)
unfolding allocate allocate_at
take_head n p used [] size room links left all once =
    subst (λ h. Allocated n used (allocate_at p h)) (sym links)
      (
        record {
          size_is = size;
          room = room;
          chain = [];
          links = links;
          left = left;
          all_slots = all;
          once = once;
        },
        omega arith,
      )
take_head n p used (i ∷ chain) size room (here, (next, at, links)) left all once =
    let seen = once i in
    subst (λ h. Allocated n used (allocate_at p h)) (sym here)
      (
        record {
          size_is = size;
          room = room;
          chain = chain;
          links = subst (λ h. Links p.free_list h chain) (sym (ap link_at at)) links;
          left = omega (arith, left);
          all_slots = omega (arith, all);
          once = λ x. ground (arith, once x);
        },
        ground arith,
        ground arith,
      )

allocate-Allocated :
    (n : ℕ) (p : Pool) (used : List ℕ) → IsValid n p used → Allocated n used (allocate p)
allocate-Allocated n p used v =
    take_head n p used v.chain v.size_is v.room v.links v.left v.all_slots v.once

deallocate-IsValid :
    (n : ℕ) (p : Pool) (used : List ℕ) (idx : ℕ)
    → IsValid n p used
    → occurrences idx used ≡ 1
    → IsValid n (deallocate (some idx) p) (without idx used)
unfolding deallocate
deallocate-IsValid n p used idx v h =
    let seen = v.once idx in
    let absent : occurrences idx v.chain ≡ 0 = ground arith in
    let inside : idx < length p.free_list = ground (arith, v.room) in
    record {
      size_is = v.size_is;
      room = length-set p.free_list idx p.free_head ∙ v.room;
      chain = idx ∷ v.chain;
      links = (
        refl,
        (
          p.free_head,
          get_elem?-set_self p.free_list idx p.free_head inside,
          Links-set p.free_list p.free_head v.chain idx p.free_head absent v.links,
        ),
      );
      left = omega (arith, v.left);
      all_slots = omega (arith, v.all_slots, length-without idx used h);
      once = λ x. ground (arith, v.once x, occurrences-without x idx used h);
    }

of_some :
    (n : ℕ) (used : List ℕ) (r : Pool × Option ℕ) (idx : ℕ)
    → r.1 ≡ some idx
    → Allocated n used r
    → IsValid n r.0 (idx ∷ used)
of_some n used (p, none) idx e h = cc
of_some n used (p, some i) idx e h = let same : i ≡ idx = cc in rw same at h.0

of_none :
    (n : ℕ) (used : List ℕ) (r : Pool × Option ℕ)
    → r.1 ≡ none
    → Allocated n used r
    → IsValid n r.0 used
of_none n used (p, none) e h = h.0
of_none n used (p, some i) e h = cc

Reached-IsValid : (n : ℕ) (p : Pool) (used : List ℕ) → 0 < n → Reached n p used → IsValid n p used
unfolding reset
Reached-IsValid n p used h built = new_pool-IsValid n h
Reached-IsValid n p used h (allocated q slots idx r e) =
    of_some n slots (allocate q) idx e
      (allocate-Allocated n q slots (Reached-IsValid n q slots h r))
Reached-IsValid n p used h (exhausted q slots r e) =
    of_none n slots (allocate q) e (allocate-Allocated n q slots (Reached-IsValid n q slots h r))
Reached-IsValid n p used h (deallocated q slots idx r e) =
    deallocate-IsValid n q slots idx (Reached-IsValid n q slots h r) e
Reached-IsValid n p used h (forgotten q slots r) =
    let v = Reached-IsValid n q slots h r in
    subst (λ m. IsValid n (new_pool m) []) (sym v.size_is) (new_pool-IsValid n h)

-- In a pool of at least one slot, after any calls of a client that gives back only slots that it has, the
-- slots that are free and those in use are together all slots, each once, and `available` counts the
-- free ones. The next allocation returns a null pointer only if all slots are in use; else it returns a
-- slot of the pool that is not in use.
pub Reached-Allocated :
    (n : ℕ) (p : Pool) (used : List ℕ)
    → 0 < n
    → Reached n p used
    → IsValid n p used × Allocated n used (allocate p)
Reached-Allocated n p used h r =
    let v = Reached-IsValid n p used h r in (v, allocate-Allocated n p used v)
