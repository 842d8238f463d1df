-- ===== src/Fat32Vfs.antt =====
-- crates/fs/fat32_vfs: a FAT32 file system below the inodes of the kernel.
pub mod Validity
pub mod File
mod Tests
