-- ===== src/Process.antt =====
-- proc.c and proc.h: the process table, the scheduler and the life of a process.
pub mod Defs
pub mod Select
pub mod Switch
pub mod Life
pub mod Fork
pub mod Stack
pub mod Choice
pub mod Invariant
pub mod Waiting
pub mod Flags
pub mod Context
mod Tests
