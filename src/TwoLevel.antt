-- ===== src/TwoLevel.antt =====
-- Segmentation, Paging, IPC/q4.c: two-level paging with demand allocation.
pub mod Defs
pub mod Invariant
pub mod Translate
pub mod Memory
pub mod Flat
mod Examples
