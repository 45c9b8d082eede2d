-- ===== src/Engine.antt =====
-- The matching engine's data structures, in C++: include/spsc_ring_buffer.h, include/memory_pool.h,
-- include/order.h, include/order_book.h and src/order_book.cpp.
pub mod Pool
pub mod Ring
pub mod Order
pub mod Level
pub mod Book
