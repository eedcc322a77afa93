-- ===== src/Alloc.antt =====
-- 02-virtual-memory-and-custom-allocators/projects/slab_and_buddy_allocator.
pub mod Buddy
pub mod Slab
mod Tests
