-- ===== src/Fs.antt =====
-- crates/libkernel/src/fs and the flags of crates/utils/defines/src/fs.rs.
pub mod OpenFlags
pub mod FdTable
pub mod Pipe
pub mod PageCache
pub mod Inode
pub mod Dentry
pub mod Path
pub mod Descriptors
pub mod Openat
pub mod Cwd
pub mod Unlinkat
mod Tests
