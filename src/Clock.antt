-- ===== src/Clock.antt =====
-- Segmentation, Paging, IPC/q5.c: page replacement by the clock algorithm.
pub mod Defs
pub mod Passed
pub mod Sweep
pub mod Numbers
pub mod Handled
pub mod Request
pub mod Run
mod Tests
mod Examples
