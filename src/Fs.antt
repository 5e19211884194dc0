-- ===== src/Fs.antt =====
-- fs.c and fs.h: a file system in memory, its inodes, directories and file descriptors.
pub mod Defs
pub mod Dir
pub mod Path
pub mod Files
pub mod Count
pub mod Refs
mod Tests
