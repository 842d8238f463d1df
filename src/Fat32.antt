-- ===== src/Fat32.antt =====
-- crates/utils/fat32.
pub mod Bytes
pub mod Bpb
pub mod Fat
pub mod Load
pub mod DirEntry
mod Tests
