-- ===== src/Process/Stack.antt =====
-- Where `Thread` of crates/libkernel/src/thread/mod.rs puts the user stacks.
use asynclear.Prelude.{
  ℕ, ◌+◌, ◌-◌, ◌*◌, ◌<◌, ◌≤◌, ◌≡◌, ltb, KResult, ok, panic, ◌>>=◌, ◌>>◌, assert, arith,
}
use asynclear.Config.{user_stack_size, page_size, low_address_end, usize_mod}
use asynclear.Memory.Address.{VirtPageNum, sub, vpn_floor}
use asynclear.Memory.Pte.{rwu_permission}
use asynclear.Memory.MemorySpace.{MemorySpace, user_map, remove_area_with_start_vpn}

-- The product and the difference are checked for overflow.
unfoldable pub user_stack_high_addr : ℕ → KResult VirtPageNum
user_stack_high_addr tid = do
  assert (ltb (tid * (user_stack_size + page_size)) usize_mod)
  va ← sub low_address_end (tid * (user_stack_size + page_size))
  ok (vpn_floor va)

unfoldable pub user_stack_low_addr : ℕ → KResult VirtPageNum
unfolding user_stack_high_addr
user_stack_low_addr tid = do high ← user_stack_high_addr tid; sub high (vpn_floor user_stack_size)

pub alloc_user_stack : ℕ → MemorySpace → KResult ((VirtPageNum × VirtPageNum) × MemorySpace)
unfolding user_stack_high_addr user_stack_low_addr
alloc_user_stack tid m = do
  low ← user_stack_low_addr tid
  high ← user_stack_high_addr tid
  ok ((low, high), user_map m low high rwu_permission)

pub dealloc_user_stack : ℕ → MemorySpace → KResult MemorySpace
unfolding user_stack_low_addr
dealloc_user_stack tid m = user_stack_low_addr tid >>= λ low. remove_area_with_start_vpn m low

-- The last thread id with a stack: that of the next one would begin below address 0.
abbrev pub last_tid : ℕ
last_tid = 32751

stack_value :
    (tid : ℕ)
    → tid ≤ last_tid
    → (user_stack_high_addr tid ≡ ok (0x400_0000 - tid * 2049))
      × (user_stack_low_addr tid ≡ ok (0x400_0000 - tid * 2049 - 2048))
unfolding user_stack_high_addr user_stack_low_addr sub vpn_floor
stack_value tid h = (ground arith, ground arith)

no_stack : (tid : ℕ) → last_tid < tid → user_stack_low_addr tid ≡ panic
unfolding user_stack_high_addr user_stack_low_addr sub vpn_floor
no_stack tid h = ground arith

-- A thread with an id above 32751 has no stack: its address overflows, and asking for it panics. The
-- stacks of two threads with ids up to 32751 lie apart, with a page between them that belongs to neither,
-- and below the end of the low address space.
pub stacks_apart :
    (s t : ℕ)
    → s < t
    → (last_tid < t → user_stack_low_addr t ≡ panic)
      × (t ≤ last_tid
          → (low : VirtPageNum) × (high : VirtPageNum) × (low' : VirtPageNum)
            × (high' : VirtPageNum) × (user_stack_low_addr s ≡ ok low)
            × (user_stack_high_addr s ≡ ok high)
            × (user_stack_low_addr t ≡ ok low')
            × (user_stack_high_addr t ≡ ok high')
            × (low + 2048 ≡ high)
            × (low' + 2048 ≡ high')
            × (high' + 1 ≤ low)
            × (high ≤ 0x400_0000))
stacks_apart s t h = (
  no_stack t,
  λ b.
      let x = stack_value s (omega arith) in
      let y = stack_value t b in
      (_, _, _, _, x.1, x.0, y.1, y.0, omega arith, omega arith, omega arith, omega arith),
)
