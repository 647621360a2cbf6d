-- ===== src/Memory.antt =====
-- kernel/memory: the physical page bitmap, the bump allocators, the page tables and DMA buffers.
pub mod Bump
pub mod PageAlloc
pub mod Paging
