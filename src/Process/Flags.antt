-- ===== src/Process/Flags.antt =====
-- What proc.c does with `need_resched` once it is raised.
pub mod Moves
pub mod Calls
