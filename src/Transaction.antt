-- ===== src/Transaction.antt =====
-- 358982/Transaction.hpp and Transaction.cpp: one transaction on a region, method by method.
-- A method runs here with no other thread's writes in between: where other threads stand is the state
-- that it starts from, about which the theorems assume nothing that they do not say.
pub mod Types
pub mod Writing
pub mod Locking
pub mod Reading
pub mod Commit
pub mod Opacity
mod Tests
