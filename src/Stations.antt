-- ===== src/Stations.antt =====
-- Hard Disk and File IO/q1.c: the temperatures of stations, read from a file in two ways.
pub mod Double
pub mod Defs
pub mod Files
pub mod Lines
pub mod Same
pub mod Names
pub mod Sorted
pub mod Known
pub mod Tally
pub mod Report
mod Examples
