-- ===== src/Disk.antt =====
-- Hard Disk and File IO/q2.c: disk head scheduling by the shortest seek time first.
pub mod Defs
pub mod Nearest
pub mod Tour
pub mod Simulation
mod Examples
