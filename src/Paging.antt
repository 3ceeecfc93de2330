-- ===== src/Paging.antt =====
-- Segmentation, Paging, IPC/q3.c: paging with a translation lookaside buffer.
pub mod Defs
pub mod Walk
pub mod Coherence
pub mod Run
pub mod Identity
mod Examples
