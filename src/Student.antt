-- ===== src/Student.antt =====
-- Hard Disk and File IO/q3.c: the name of a student, read from a file of records.
pub mod Defs
pub mod Records
mod Examples
