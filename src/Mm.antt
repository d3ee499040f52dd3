-- ===== src/Mm.antt =====
-- The memory manager: NNXOSKRN/HAL/X64/physical_allocator.c.
pub mod PhysicalAllocator
