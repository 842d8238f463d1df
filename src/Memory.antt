-- ===== src/Memory.antt =====
-- crates/libkernel/src/memory.
pub mod Address
pub mod Pte
pub mod PageTable
pub mod VmArea
pub mod MemorySpace
pub mod Heap
pub mod Mmap
pub mod InitStack
mod Tests
pub mod UserCheck
