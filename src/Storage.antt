-- ===== src/Storage.antt =====
-- Multithreading/q3.c: delivery trucks that fill a store, and managers that empty it.
pub mod Defs
pub mod Ring
pub mod Invariant
pub mod Rounds
pub mod Steps
pub mod Ends
pub mod Safe
mod Examples
