-- ===== src/Threads.antt =====
-- Multithreading/q4p1.c: the matrix product by a thread for each element.
pub mod Run
pub mod Order
pub mod Product
pub mod Same
mod Examples
