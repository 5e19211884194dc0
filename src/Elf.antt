-- ===== src/Elf.antt =====
-- elf.c and elf.h: the loader of programs.
pub mod Bytes
pub mod Defs
pub mod Copy
pub mod Page
pub mod Step
pub mod Image
mod Tests
