-- ===== src/Vmm.antt =====
-- vmm.c: Sv39 page tables, in the pages that pmm.c hands out.
pub mod Defs
pub mod Mapping
pub mod Entry
pub mod Tree
pub mod Grow
pub mod Below
pub mod Fresh
pub mod Attach
pub mod Refine
pub mod Kernel
pub mod Size
pub mod NewPage
mod Tests
