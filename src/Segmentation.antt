-- ===== src/Segmentation.antt =====
-- Segmentation, Paging, IPC/q2.c: segmentation.
pub mod Defs
pub mod Bounds
mod Examples
