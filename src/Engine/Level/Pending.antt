-- ===== src/Engine/Level/Pending.antt =====
-- The operations of a price level by what its cursor has before it, holes included.
use matching_machine.Prelude.{
  ℕ, zero, suc, ◌+◌, ◌-◌, ◌/◌, ◌≤◌, ◌≡◌, refl, sym, ap, ◌∙◌, subst, Bool, true, false, ◌&&◌, Option,
  none, some, List, [], ◌∷◌, ◌++◌, length, length-append, length-take, eq_nil_of_length, get_elem?,
  drop, take, ltb, leb, arith, Bool-cases, inl, inr,
}
use matching_machine.Engine.Level.{
  PriceLevel, no_orders, push, pointer, front, skip, compact, pop_front, empty, clear_first, remove,
}

-- What the cursor has before it.
abbrev pub pending : PriceLevel → List (Option ℕ)
pending l = drop l.head l.orders

-- The orders, without the holes.
abbrev pub live : List (Option ℕ) → List ℕ
live [] = []
live (none ∷ os) = live os
live (some o ∷ os) = o ∷ live os

abbrev pub queue : PriceLevel → List ℕ
queue l = live (pending l)

-- No hole stands first.
abbrev pub StartsLive : List (Option ℕ) → Type 0
StartsLive [] = Unit
StartsLive (none ∷ os) = ⊥
StartsLive (some o ∷ os) = Unit

pub record IsReady (l : PriceLevel) : Type 0 where
  pub cursor : l.head ≤ length l.orders
  pub starts : StartsLive (pending l)

abbrev pub trim : List (Option ℕ) → List (Option ℕ)
trim [] = []
trim (none ∷ os) = trim os
trim (some o ∷ os) = some o ∷ os

-- Without its first element.
abbrev pub rest : List (Option ℕ) → List (Option ℕ)
rest [] = []
rest (o ∷ os) = os

pub trim_starts : (os : List (Option ℕ)) → StartsLive (trim os)
trim_starts [] = tt
trim_starts (none ∷ os) = trim_starts os
trim_starts (some o ∷ os) = tt

pub live-trim : (os : List (Option ℕ)) → live (trim os) ≡ live os
live-trim [] = refl
live-trim (none ∷ os) = live-trim os
live-trim (some o ∷ os) = refl

pub length-trim : (os : List (Option ℕ)) → length (trim os) ≤ length os
length-trim [] = omega arith
length-trim (none ∷ os) = omega (arith, length-trim os)
length-trim (some o ∷ os) = omega arith

drop-suc : (i : ℕ) (xs : List (Option ℕ)) → drop (suc i) xs ≡ rest (drop i xs)
drop-suc zero [] = refl
drop-suc zero (x ∷ xs) = refl
drop-suc (suc i) [] = refl
drop-suc (suc i) (x ∷ xs) = drop-suc i xs

drop-skip :
    (ys : List (Option ℕ)) (i : ℕ) (xs : List (Option ℕ))
    → drop i xs ≡ ys
    → drop (skip ys i) xs ≡ trim ys
drop-skip [] i xs e = e
drop-skip (none ∷ ys) i xs e = drop-skip ys (suc i) xs (drop-suc i xs ∙ ap rest e)
drop-skip (some o ∷ ys) i xs e = e

skip-le : (ys : List (Option ℕ)) (i : ℕ) → skip ys i ≤ i + length ys
skip-le [] i = omega arith
skip-le (none ∷ ys) i = omega (arith, skip-le ys (suc i))
skip-le (some o ∷ ys) i = omega arith

pub length-drop_at : (i : ℕ) (xs : List (Option ℕ)) → length (drop i xs) ≡ length xs - i
length-drop_at zero xs = omega arith
length-drop_at (suc i) [] = omega arith
length-drop_at (suc i) (x ∷ xs) = omega (arith, length-drop_at i xs)

pending-compact : (l : PriceLevel) → pending (compact l) ≡ pending l
pending-compact l = elim (Bool-cases (ltb 16 l.head && ltb (length l.orders / 2) l.head)) [
  | inl e ↦ rw e refl
  | inr e ↦ rw e refl
]

compact_cursor :
    (l : PriceLevel) → l.head ≤ length l.orders → (compact l).head ≤ length (compact l).orders
compact_cursor l h = elim (Bool-cases (ltb 16 l.head && ltb (length l.orders / 2) l.head)) [
  | inl e ↦ rw e (omega arith)
  | inr e ↦ rw e h
]

-- The operations, by what stands before the cursor.
pub pending-push :
    (o : ℕ) (l : PriceLevel)
    → l.head ≤ length l.orders
    → pending (push o l) ≡ pending l ++ some o ∷ []
unfolding push
pending-push o l h = drop-append l.head l.orders h
  where
    drop-append :
        (i : ℕ) (xs : List (Option ℕ))
        → i ≤ length xs
        → drop i (xs ++ some o ∷ []) ≡ drop i xs ++ some o ∷ []
    drop-append zero xs h = refl
    drop-append (suc i) [] h = absurd (omega arith)
    drop-append (suc i) (x ∷ xs) h = drop-append i xs (omega arith)

popped_in :
    (l : PriceLevel)
    → pending (compact (record l { head = skip (drop (suc l.head) l.orders) (suc l.head) }))
      ≡ trim (rest (pending l))
popped_in l =
    pending-compact (record l { head = skip (drop (suc l.head) l.orders) (suc l.head) })
    ∙ drop-skip (drop (suc l.head) l.orders) (suc l.head) l.orders refl
    ∙ ap trim (drop-suc l.head l.orders)

pending_nil : (l : PriceLevel) → length l.orders ≤ l.head → pending l ≡ []
pending_nil l h = eq_nil_of_length _ (omega (arith, length-drop_at l.head l.orders))

pub pending-pop_front : (l : PriceLevel) → pending (pop_front l) ≡ trim (rest (pending l))
unfolding pop_front
pending-pop_front l = elim (Bool-cases (ltb l.head (length l.orders))) [
  | inl e ↦ rw e (popped_in l)
  | inr e ↦ let none_left = pending_nil l (ground arith) in rw (e, none_left) refl
]

pop_front_cursor :
    (l : PriceLevel) → l.head ≤ length l.orders → (pop_front l).head ≤ length (pop_front l).orders
unfolding pop_front
pop_front_cursor l h = elim (Bool-cases (ltb l.head (length l.orders))) [
  | inl e ↦ rw e (
      compact_cursor (record l { head = skip (drop (suc l.head) l.orders) (suc l.head) })
        (ground (
          arith,
          skip-le (drop (suc l.head) l.orders) (suc l.head),
          length-drop_at (suc l.head) l.orders,
        )))
  | inr e ↦ rw e h
]

pub pop_front-IsReady : (l : PriceLevel) → IsReady l → IsReady (pop_front l)
pop_front-IsReady l r = record {
  cursor = pop_front_cursor l r.cursor;
  starts = rw (pending-pop_front l) (trim_starts (rest (pending l)));
}

starts-append : (os : List (Option ℕ)) (o : ℕ) → StartsLive os → StartsLive (os ++ some o ∷ [])
starts-append [] o h = tt
starts-append (none ∷ os) o h = h
starts-append (some p ∷ os) o h = tt

push_starts : (o : ℕ) (l : PriceLevel) → IsReady l → StartsLive (pending (push o l))
push_starts o l r =
    subst StartsLive (sym (pending-push o l r.cursor)) (starts-append (pending l) o r.starts)

pub push-IsReady : (o : ℕ) (l : PriceLevel) → IsReady l → IsReady (push o l)
unfolding push
push-IsReady o l r = record {
  cursor = omega (arith, length-append l.orders (some o ∷ []), r.cursor);
  starts = push_starts o l r;
}

pub no_orders-IsReady : IsReady no_orders
no_orders-IsReady = record { cursor = omega arith; starts = tt }

-- The cleared vector, seen from the cursor.
drop-take : (i : ℕ) (xs ys : List (Option ℕ)) → i ≤ length xs → drop i (take i xs ++ ys) ≡ ys
drop-take zero xs ys h = refl
drop-take (suc i) [] ys h = absurd (omega arith)
drop-take (suc i) (x ∷ xs) ys h = drop-take i xs ys (omega arith)

pub pending-remove :
    (is_it : ℕ → Bool) (l : PriceLevel)
    → l.head ≤ length l.orders
    → pending (remove is_it l) ≡ trim (clear_first is_it (pending l))
unfolding remove
pending-remove is_it l h =
    drop-skip (clear_first is_it (pending l)) l.head
      (take l.head l.orders ++ clear_first is_it (pending l))
      (drop-take l.head l.orders (clear_first is_it (pending l)) h)

remove_starts :
    (is_it : ℕ → Bool) (l : PriceLevel) → IsReady l → StartsLive (pending (remove is_it l))
remove_starts is_it l r =
    subst StartsLive (sym (pending-remove is_it l r.cursor))
      (trim_starts (clear_first is_it (pending l)))

pub remove-IsReady : (is_it : ℕ → Bool) (l : PriceLevel) → IsReady l → IsReady (remove is_it l)
unfolding remove
remove-IsReady is_it l r = record {
  cursor = omega (
    arith,
    skip-le (clear_first is_it (pending l)) l.head,
    length-append (take l.head l.orders) (clear_first is_it (pending l)),
    length-take l.head l.orders,
    r.cursor,
  );
  starts = remove_starts is_it l r;
}

abbrev pub is_nil {ℓ} : {A : Type ℓ} → List A → Bool
is_nil [] = true
is_nil (x ∷ xs) = false

get_elem?-drop : (i : ℕ) (xs : List (Option ℕ)) → get_elem? (drop i xs) 0 ≡ get_elem? xs i
get_elem?-drop zero xs = refl
get_elem?-drop (suc i) [] = refl
get_elem?-drop (suc i) (x ∷ xs) = get_elem?-drop i xs

pub front-pending : (l : PriceLevel) → front l ≡ pointer (get_elem? (pending l) 0)
unfolding front
front-pending l = ap pointer (sym (get_elem?-drop l.head l.orders))

leb-drop : (i : ℕ) (xs : List (Option ℕ)) → leb (length xs) i ≡ is_nil (drop i xs)
leb-drop zero [] = refl
leb-drop zero (x ∷ xs) = ground arith
leb-drop (suc i) [] = ground arith
leb-drop (suc i) (x ∷ xs) = ground (arith, leb-drop i xs)

pub empty-pending : (l : PriceLevel) → empty l ≡ is_nil (pending l)
unfolding empty
empty-pending l = leb-drop l.head l.orders

first_live :
    (os : List (Option ℕ))
    → StartsLive os
    → is_nil os ≡ false
    → (r : ℕ) × (pointer (get_elem? os 0) ≡ some r) × (1 ≤ length os)
first_live [] st e = cc
first_live (none ∷ os) st e = elim st [ ]
first_live (some r ∷ os) st e = (r, refl, omega arith)

-- A level with a live front that is not empty has a first order.
pub front_live :
    (l : PriceLevel)
    → IsReady l
    → empty l ≡ false
    → (r : ℕ) × (front l ≡ some r) × (1 ≤ length (pending l))
front_live l ready e =
    let (r, q, some_left) = first_live (pending l) ready.starts (sym (empty-pending l) ∙ e) in
    (r, front-pending l ∙ q, some_left)

pub pop_shorter :
    (l : PriceLevel)
    → 1 ≤ length (pending l)
    → suc (length (pending (pop_front l))) ≤ length (pending l)
pop_shorter l h =
    rw (pending-pop_front l)
      (omega (arith, length-trim (rest (pending l)), rest_shorter (pending l) h))
  where
    rest_shorter : (os : List (Option ℕ)) → 1 ≤ length os → suc (length (rest os)) ≤ length os
    rest_shorter [] h = absurd (omega arith)
    rest_shorter (o ∷ os) h = omega arith
