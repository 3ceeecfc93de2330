-- ===== src/Redirect.antt =====
-- Hard Disk and File IO/q4.c: output that is redirected to a file, and back.
pub mod Defs
pub mod Restored
pub mod Command
pub mod Both
mod Examples
