-- ===== src/Engine/Order.antt =====
-- include/order.h: orders and trades.
use matching_machine.Prelude.{ℕ, ◌-◌, Bool, leb}
use matching_machine.Prelude.Int.{ℤ}

pub data Side : Type 0 where
  buy : Side
  sell : Side

pub data OrderType : Type 0 where
  limit : OrderType
  cancel : OrderType

pub data OrderStatus : Type 0 where
  new : OrderStatus
  partial : OrderStatus
  filled : OrderStatus
  cancelled : OrderStatus

-- Prices are signed. Quantities are numbers: the book asks its callers for positive ones.
pub record Order : Type 0 where
  pub order_id : ℕ
  pub timestamp_ns : ℕ
  pub price : ℤ
  pub quantity : ℕ
  pub filled_qty : ℕ
  pub symbol : ℕ
  pub side : Side
  pub type : OrderType
  pub status : OrderStatus

-- Never asked of an order that is filled beyond its quantity, where the source's is negative.
abbrev pub remaining_qty : Order → ℕ
remaining_qty o = o.quantity - o.filled_qty

abbrev pub is_filled : Order → Bool
is_filled o = leb o.quantity o.filled_qty

pub record Trade : Type 0 where
  pub trade_id : ℕ
  pub timestamp_ns : ℕ
  pub buy_order_id : ℕ
  pub sell_order_id : ℕ
  pub price : ℤ
  pub quantity : ℕ
  pub symbol : ℕ
