-- ===== src/Commands.antt =====
-- Hard Disk and File IO/q5: the commands that count words, copy a file and move a directory.
pub mod Words
pub mod Copy
pub mod Copied
pub mod Move
pub mod Moved
mod Examples
