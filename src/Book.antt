-- ===== src/Book.antt =====
-- include/lob/order_book.hpp: the price-time priority matching engine.
pub mod State
pub mod Links
pub mod Sweep
pub mod Engine
pub mod Ids
pub mod Queue
pub mod Access
pub mod Matching
pub mod Requeued
pub mod Rest
pub mod Fills
pub mod Fresh
pub mod Returns
pub mod Top
pub mod Unlink
pub mod Valid
