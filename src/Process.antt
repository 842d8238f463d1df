-- ===== src/Process.antt =====
-- crates/libkernel/src/process, the exit of threads in crates/libkernel/src/thread/mod.rs, and
-- `sys_wait4` of crates/kernel/src/syscall/process.rs.
pub mod Status
pub mod Wait
pub mod Family
pub mod Stack
mod Tests
