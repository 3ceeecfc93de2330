-- ===== src/TryLock.antt =====
-- Multithreading/q1.c: three threads that try two locks.
pub mod Defs
pub mod Locks
mod Examples
