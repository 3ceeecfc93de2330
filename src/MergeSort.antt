-- ===== src/MergeSort.antt =====
-- Segmentation, Paging, IPC/q1.c: merge sort by processes that send their halves through pipes.
pub mod Defs
pub mod Merge
pub mod Sort
mod Examples
