-- ===== src/Console.antt =====
-- uart.c and the line input of kernel.c.
pub mod Defs
pub mod Printf
pub mod Numbers
pub mod Ring
pub mod Line
mod Tests
