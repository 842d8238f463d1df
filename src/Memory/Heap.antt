-- ===== src/Memory/Heap.antt =====
-- The break of a process: `set_user_brk` of crates/libkernel/src/process/inner.rs, which `sys_brk` calls,
-- and the guards of `sys_munmap` in crates/kernel/src/syscall/memory.rs.
use Prim.Native.Nat.{bit_and}
use asynclear.Prelude.{
  ℕ, ◌-◌, not, ◌||◌, ltb, leb, ◌==◌, if◌then◌else◌, KResult, ok, einval, ◌>>=◌, ◌>>◌, ensure, min,
}
use asynclear.Config.{page_offset_mask, low_address_end, usize_mod}
use asynclear.Memory.Address.{VirtAddr, vpn_floor, vpn_ceil, add}
use asynclear.Memory.MemorySpace.{MemorySpace, set_user_brk, unmap}

-- The fields of `ProcessInner` that these operations use.
pub record ProcessInner : Type 0 where
  pub memory_space : MemorySpace
  pub heap_start : VirtAddr
  pub heap_end : VirtAddr

pub set_brk : ProcessInner → VirtAddr → KResult (VirtAddr × ProcessInner)
set_brk p new_brk =
    if leb new_brk p.heap_start || ltb low_address_end new_brk
    then ok (p.heap_end, p)
    else (set_user_brk p.memory_space (vpn_floor p.heap_start) (vpn_ceil new_brk) >>= λ m.
        ok (new_brk, record p { memory_space = m; heap_end = new_brk }))

-- The log line computes `addr + len`, which is checked.
unfoldable pub sys_munmap : ProcessInner → VirtAddr → ℕ → KResult (ℕ × ProcessInner)
sys_munmap p addr len = do
  end ← add addr len
  ensure
      (not (
        not (bit_and addr page_offset_mask == 0)
        || len == 0
        || ltb low_address_end (min end (usize_mod - 1))))
      einval
  m ← unmap p.memory_space addr end
  ok (0, record p { memory_space = m })
