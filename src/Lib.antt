-- ===== src/Lib.antt =====
-- asynclear is an asynchronous kernel for RISC-V in Rust. This development models the parts of the
-- kernel that keep state of their own and have a contract: ids, addresses and page tables, the
-- areas of an address space, the checks of user memory, file descriptors, pipes, inodes with their
-- page cache, the directory tree, the FAT32 file system, processes as their parents see them, and
-- signals.
--
-- The files follow the crates. IdAllocator models crates/utils/idallocator/src/lib.rs (alloc,
-- dealloc). Config and Prelude/Results hold the constants of crates/utils/common/src/config.rs and
-- the results of crates/utils/defines/src/error.rs. Memory/Address models
-- crates/libkernel/src/memory/address.rs; Memory/Pte and Memory/PageTable model
-- memory_space/page_table.rs, whose find_pte_create is a chain of two steps `descend`;
-- Memory/VmArea models memory_space/vm_area.rs and Memory/MemorySpace the operations of
-- memory_space/mod.rs (try_map, unmap, set_user_brk, handle_memory_exception and what they call);
-- Memory/Heap the break of process/inner.rs and sys_munmap, and Memory/Mmap sys_mmap of
-- crates/kernel/src/syscall/memory.rs. Memory/UserCheck models memory/user_check.rs (check_ptr, the
-- walks of check_read_impl and check_write_impl, check_cstr, and the fault handler that they rely
-- on). Fs/FdTable models the FdTable of fs/file.rs, Fs/Pipe models fs/pipe.rs (a call of write that
-- waits is an outcome of its own), Fs/OpenFlags the flags of crates/utils/defines/src/fs.rs.
-- Fs/Descriptors models seek of fs/file.rs and the calls lseek, dup, dup3, close and fcntl of
-- crates/kernel/src/syscall/fs.rs, Fs/Openat its sys_openat, Fs/Unlinkat its sys_unlinkat,
-- sys_mkdirat and sys_faccessat, and Fs/Cwd its sys_chdir and sys_getcwd. Fs/PageCache models
-- fs/page_cache.rs and Fs/Inode the regular files of fs/inode.rs (read_at_impl, write_at_impl,
-- resize); Fs/Dentry models fs/dentry.rs (lookup, mkdir, mknod, unlink, remove_dir, rename, path)
-- and Fs/Path the resolution of paths of fs/mod.rs. Fat32 models crates/utils/fat32/src: Bpb
-- (bpb.rs), Load and Fat (fat.rs), DirEntry (dir_entry.rs). Fat32Vfs models
-- crates/fs/fat32_vfs/src: the files of file.rs and the check of the boot sector of lib.rs.
-- Memory/InitStack models memory_space/init_stack.rs, which lays out the stack of a new program,
-- and init_stack of memory_space/mod.rs. Process models the status of
-- crates/libkernel/src/process/mod.rs, the user stacks of thread/mod.rs and sys_wait4 of
-- crates/kernel/src/syscall/process.rs (one round of its loop, and the call with its guards and the
-- status up to the first wait); Process/Family models the process table with its pids: fork of
-- process/mod.rs, exit_thread of thread/mod.rs and the pid that goes back when a child has been
-- waited for. Signal models crates/libkernel/src/signal, check_signal of trap/mod.rs and
-- sys_rt_sigreturn and sys_rt_sigaction of crates/kernel/src/syscall/signal.rs, the latter with the
-- actions as bytes of user memory.
--
-- Prelude/Stateful holds the actions in which state and results of calls meet.
--
-- State is a record for each struct, and an operation is a function from the state and its
-- arguments to a result and the new state. Where the code can fail or panic the result is a
-- KResult: ok, err with an errno, or panic. A panic stands for a failed assertion, an unwrap of
-- nothing, an index out of range, todo! and an overflow, as in the development profile, which
-- checks overflow. Numbers are the native natural numbers; the bounds of 64 and 32 bits are written
-- out. A BTreeMap is an association list in the order of its keys. Physical memory is a function
-- from frames and lines to page table entries, shared by all address spaces, with the list of
-- frames that the allocator will hand out next.
--
-- How the parts interact: an address space finds room among its areas with find_gap and leaves the
-- frames to its areas, which call map and unmap of the page table; the page table takes frames from
-- the same supply. The checks of user memory hand a page fault to handle_memory_exception of the
-- address space. The stacks of threads are areas of the address space. An inode fills its page
-- cache through read_inode_at of the file system below; for a FAT32 file that call follows the
-- chain of clusters in the allocation table and reads their sectors. A path is resolved by lookups
-- from entry to entry, and a directory prints its path by going from parent to parent. pipe2 puts
-- the two ends of a pipe into the table of descriptors with add_many. The stack of a new program is
-- written through the frames that ensure_allocated gives to its area. fork takes a pid from the id
-- allocator, the exit of the last thread hands the children to the first process and sends the
-- parent a signal with receive_signal, and the end of a child that has been waited for gives its
-- pid back. exit_process sets the status that the last thread turns into the code that wait4
-- returns, and a signal without a handler ends in exit_process.
--
-- Loops are recursion on the list that they run over, except that cluster_chain runs on fuel: a
-- table with a cycle has no last cluster, and for a chain that ends any fuel of at least its length
-- gives the whole chain. trailing_zeros runs on 64 bits. The walk over the pages of a user range
-- runs size / 4096 + 1 rounds, and that over a user string 6 rounds, at most 5 pages of text and
-- the round that gives up; reading and writing run one round more than the bytes asked for, since a
-- round handles at least one byte. Going up to the root is bounded by the number of entries that
-- exist.
--
-- Parameters stand for what is not in the repository: the channel of async_channel, the block
-- device, the decoding of text, the copying to and from user memory, the lookups and the new inodes
-- of a file system, its read_inode_at, and two readings of the clock. Not modelled: mounting,
-- directories and devices as inodes and their times of access, the calls that fill structures for
-- the user, directories of fat32_vfs, writing pages back, the loading of executables, exec, the
-- copies of memory and files that fork makes, the floating-point context, locks, the executor and
-- its timers, drivers, the TLB, and the log. A lock is held for a whole operation, so an operation
-- is one step.
pub mod Prelude
pub mod Config
pub mod BTreeMap
pub mod Fat32
pub mod Fat32Vfs
pub mod Fs
pub mod IdAllocator
pub mod Memory
pub mod Process
pub mod Signal
