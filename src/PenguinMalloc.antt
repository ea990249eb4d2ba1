-- ===== src/PenguinMalloc.antt =====
-- penguin_malloc: a page allocator, slabs on top of it, and `penguin_malloc` on top of both.
pub mod Config
pub mod Util
pub mod BuddyUtil
pub mod Freelist
pub mod Buddy
pub mod SlabCaches
pub mod Slab
pub mod Malloc
pub mod Pfalloc
pub mod Operators
