-- ===== src/Heap.antt =====
-- heap.c: the kernel's heap, a list of blocks in pages that pmm.c gives and vmm.c maps.
pub mod Defs
pub mod Search
mod Tests
