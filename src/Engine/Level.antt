-- ===== src/Engine/Level.antt =====
-- `PriceLevel` of include/order_book.h: the orders of one price as a vector of pointers with a
-- cursor, in which a cancelled order leaves a hole.
pub mod Pending
pub mod Queue
use matching_machine.Prelude.{
  ℕ, suc, ◌-◌, ◌/◌, Bool, ◌&&◌, Option, none, some, List, [], ◌∷◌, ◌++◌, length, get_elem?, drop,
  take, ltb, leb, if◌then◌else◌,
}

-- A pointer is a number, and `nullptr` is `none`.
pub record PriceLevel : Type 0 where
  pub orders : List (Option ℕ)
  pub head : ℕ

abbrev pub no_orders : PriceLevel
no_orders = record { orders = []; head = 0 }

unfoldable pub push : ℕ → PriceLevel → PriceLevel
push o l = record l { orders = l.orders ++ some o ∷ [] }

-- What is read at an index: nothing, a hole or an order.
abbrev pub pointer : Option (Option ℕ) → Option ℕ
pointer none = none
pointer (some o) = o

unfoldable pub front : PriceLevel → Option ℕ
front l = pointer (get_elem? l.orders l.head)

-- The cursor at `i` moved over the holes that the rest of the vector begins with.
abbrev pub skip : List (Option ℕ) → ℕ → ℕ
skip [] i = i
skip (none ∷ rest) i = skip rest (suc i)
skip (some o ∷ rest) i = i

-- The dead prefix is erased once it is long, and more than half of the vector.
abbrev pub compact : PriceLevel → PriceLevel
compact l =
    if ltb 16 l.head && ltb (length l.orders / 2) l.head
    then record { orders = drop l.head l.orders; head = 0 }
    else l

unfoldable pub pop_front : PriceLevel → PriceLevel
pop_front l =
    if ltb l.head (length l.orders)
    then compact (record l { head = skip (drop (suc l.head) l.orders) (suc l.head) })
    else l

unfoldable pub empty : PriceLevel → Bool
empty l = leb (length l.orders) l.head

unfoldable pub size : PriceLevel → ℕ
size l = length l.orders - l.head

-- `cancel_resting`'s scan of a level: the first order from the cursor on that `is_it` knows
-- becomes a hole, and the cursor moves over leading holes.
abbrev pub clear_first : (ℕ → Bool) → List (Option ℕ) → List (Option ℕ)
clear_first is_it [] = []
clear_first is_it (none ∷ rest) = none ∷ clear_first is_it rest
clear_first is_it (some o ∷ rest) = if is_it o then none ∷ rest else some o ∷ clear_first is_it rest

unfoldable pub remove : (ℕ → Bool) → PriceLevel → PriceLevel
remove is_it l =
    let cleared = clear_first is_it (drop l.head l.orders) in
    record { orders = take l.head l.orders ++ cleared; head = skip cleared l.head }
