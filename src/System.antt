-- ===== src/System.antt =====
-- The kernel as a whole: syscall.c, trap.c and the parts of proc.c that put the components together.
pub mod Defs
pub mod Exec
pub mod Fork
pub mod Ps
pub mod Install
pub mod Shell
pub mod Calls
pub mod Syscall
pub mod Trap
pub mod Paging
pub mod Frame
pub mod Unknown
pub mod Child
pub mod Enter
pub mod Safe
mod Tests
