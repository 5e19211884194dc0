-- ===== src/Fs/Refs.antt =====
-- The reference counts of the inodes.
pub mod Defs
pub mod Moves
pub mod Rooted
pub mod Sound
pub mod Calls
pub mod Writes
pub mod Steps
