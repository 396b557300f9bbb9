-- ===== src/Memory.antt =====
-- The memory managers, src/memory.
pub mod Heap
pub mod Paging
