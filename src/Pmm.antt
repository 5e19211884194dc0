-- ===== src/Pmm.antt =====
-- pmm.c: the allocator of physical pages, with its bitmap.
pub mod Defs
pub mod Bitmap
pub mod Frames
pub mod Init
mod Tests
