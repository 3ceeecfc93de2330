-- ===== src/Scheduler.antt =====
-- Fork, Wait, Exec, Process Scheduling/q4.c: four process schedulers.
pub mod Process
pub mod Float
pub mod Fifo
pub mod Select
pub mod Sjf
pub mod Times
pub mod Main
pub mod Srtf
pub mod Rr
mod Examples
