-- ===== src/Process/Invariant.antt =====
-- The invariant of the process table is true at the start and kept by every operation of proc.c.
pub mod Defs
pub mod Switch
pub mod Life
pub mod Steps
pub mod Boot
