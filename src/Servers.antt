-- ===== src/Servers.antt =====
-- Multithreading/q2.c: five servers that share five channels.
pub mod Defs
pub mod Invariant
pub mod Calls
pub mod Deadlock
mod Examples
