-- ===== src/Memory/Mmap.antt =====
-- `sys_mmap` of crates/kernel/src/syscall/memory.rs, on the address space and the descriptors of a process.
pub mod Fresh
pub mod Roundtrip
mod Tests
use Prim.Native.Nat.{bit_and}
use asynclear.Prelude.{
  ℕ, ◌-◌, ◌/◌, ◌^◌, Bool, true, false, not, ◌&&◌, ◌||◌, ◌==◌, if◌then◌else◌, KResult, ok, err,
  panic, einval, unsupported, ebadf, eacces, ◌>>=◌, ◌>>◌, ensure, ok_or,
}
use asynclear.Config.{page_offset_mask, page_size_bits, usize_mod}
use asynclear.BTreeMap.{BTreeMap, get}
use asynclear.Memory.Address.{VirtAddr, VirtPageNum, PhysPageNum, page_start}
use asynclear.Memory.Pte.{permission_from_prot}
use asynclear.Memory.MemorySpace.{try_map, try_map_inode}
use asynclear.Memory.Heap.{ProcessInner}
use asynclear.Fs.OpenFlags.{has, append_flag, read_write}
use asynclear.Fs.FdTable.{File, seekable, stream, pipe, dir, FdTable}

-- `MmapProt` and `MmapFlags`, of which `from_bits` accepts the declared bits.
abbrev pub all_prots : ℕ
all_prots = 7

abbrev prot_write : ℕ
prot_write = 2

abbrev pub all_mmap_flags : ℕ
all_mmap_flags = 0x1833

abbrev pub map_shared : ℕ
map_shared = 1

abbrev pub map_private : ℕ
map_private = 2

abbrev pub map_fixed : ℕ
map_fixed = 16

abbrev pub map_anonymous : ℕ
map_anonymous = 32

-- What the call sees of the open files: whether the mode is regular, and the frames of the page cache.
pub record Inodes : Type 0 where
  pub is_regular : File → Bool
  pub cache : ℕ → BTreeMap PhysPageNum

abbrev pub private_anonymous_map :
    ProcessInner → VirtAddr → ℕ → ℕ → ℕ → KResult (VirtPageNum × ProcessInner)
private_anonymous_map p addr len prot flags = do
  (vpn, m) ← try_map p.memory_space addr len (permission_from_prot prot) (has flags map_fixed)
  ok (vpn, record p { memory_space = m })

-- `BackedInode::new` of a seekable file.
abbrev pub backed_inode_of : Inodes → File → KResult ℕ
backed_inode_of i (seekable id) = if i.is_regular (seekable id) then ok id else err eacces
backed_inode_of i (stream id) = err eacces
backed_inode_of i (pipe id) = err eacces
backed_inode_of i (dir id) = err eacces

unfoldable pub shared_file_map :
    Inodes
    → FdTable
    → ProcessInner
    → VirtAddr
    → ℕ
    → ℕ
    → ℕ
    → ℕ
    → ℕ
    → KResult (VirtPageNum × ProcessInner)
shared_file_map i t p addr len prot flags fd file_page_id = do
  desc ← ok_or (get t.files fd) ebadf
  (readable, writable) ← read_write desc.flags
  ensure
      (not (
        not (i.is_regular desc.file)
        || not readable
        || ((not writable || has desc.flags append_flag) && has prot prot_write)))
      eacces
  inode ← backed_inode_of i desc.file
  (vpn, m) ←
      try_map_inode p.memory_space addr len (permission_from_prot prot) (has flags map_fixed) inode
        (i.cache inode) file_page_id
  ok (vpn, record p { memory_space = m })

-- A shared anonymous mapping and a private one of a file are `todo!`.
abbrev pub choose_map :
    Inodes
    → FdTable
    → ProcessInner
    → VirtAddr
    → ℕ
    → ℕ
    → ℕ
    → ℕ
    → ℕ
    → KResult (VirtPageNum × ProcessInner)
choose_map i t p addr len prot flags fd offset =
    if has flags map_shared
    then (if has flags map_anonymous
        then panic
        else shared_file_map i t p addr len prot flags fd (offset / 2 ^ page_size_bits))
    else if not (has flags map_private)
    then err einval
    else if has flags map_anonymous
    then (if not (fd == usize_mod - 1) || not (offset == 0)
        then err einval
        else private_anonymous_map p addr len prot flags)
    else panic

unfoldable pub sys_mmap :
    Inodes
    → FdTable
    → ProcessInner
    → VirtAddr
    → ℕ
    → ℕ
    → ℕ
    → ℕ
    → ℕ
    → KResult (VirtAddr × ProcessInner)
sys_mmap i t p addr len prot flags fd offset = do
  ensure (not (len == 0)) einval
  ensure (bit_and prot all_prots == prot) einval
  ensure (bit_and flags all_mmap_flags == flags) unsupported
  ensure (bit_and offset page_offset_mask == 0) einval
  (vpn, p') ← choose_map i t p addr len prot flags fd offset
  ok (page_start vpn, p')
