-- ===== src/Memory/Address.antt =====
-- crates/libkernel/src/memory/address.rs and the conversions of memory/mod.rs. The four newtypes
-- over `usize` are numbers here; `<<` drops what leaves 64 bits, `+` and `-` are checked.
pub mod Pages
pub mod Indexes
use Prim.Native.Nat.{bit_and}
use asynclear.Prelude.{
  ℕ, ◌+◌, ◌-◌, ◌*◌, ◌/◌, ◌%◌, ◌^◌, Option, none, some, ltb, leb, if◌then◌else◌, KResult, ok, ◌>>=◌,
  ◌>>◌, assert,
}
use asynclear.Config.{
  page_size, page_size_bits, page_offset_mask, pte_per_page, pa_to_va, usize_mod,
}

abbrev pub PhysAddr : Type 0
PhysAddr = ℕ

abbrev pub PhysPageNum : Type 0
PhysPageNum = ℕ

abbrev pub VirtAddr : Type 0
VirtAddr = ℕ

abbrev pub VirtPageNum : Type 0
VirtPageNum = ℕ

-- `usize::div_ceil`
abbrev pub div_ceil : ℕ → ℕ → ℕ
div_ceil a b = (a + (b - 1)) / b

-- `usize + usize` and `usize - usize`, of any of the newtypes.
unfoldable pub add : ℕ → ℕ → KResult ℕ
add a b = do assert (ltb (a + b) usize_mod); ok (a + b)

unfoldable pub sub : ℕ → ℕ → KResult ℕ
sub a b = do assert (leb b a); ok (a - b)

-- The page number methods of `PhysAddr`.
unfoldable pub floor : PhysAddr → PhysPageNum
floor a = a / page_size

unfoldable pub ceil : PhysAddr → PhysPageNum
ceil a = div_ceil a page_size

unfoldable pub page_offset : VirtAddr → ℕ
page_offset a = bit_and a page_offset_mask

unfoldable pub vpn_floor : VirtAddr → VirtPageNum
vpn_floor a = a / 2 ^ page_size_bits

unfoldable pub vpn_ceil : VirtAddr → VirtPageNum
vpn_ceil a = div_ceil a page_size

unfoldable pub page_start : VirtPageNum → VirtAddr
page_start n = n * 2 ^ page_size_bits % usize_mod

unfoldable pub with_offset : VirtPageNum → ℕ → KResult VirtAddr
unfolding add
with_offset n offset = add (page_start n) offset

-- The loop fills the array from its end: the low nine bits are the last index.
unfoldable pub indexes : VirtPageNum → ℕ × ℕ × ℕ
indexes vpn =
    let i2 : ℕ = bit_and vpn (pte_per_page - 1) in
    let vpn1 : ℕ = vpn / 2 ^ 9 in
    let i1 : ℕ = bit_and vpn1 (pte_per_page - 1) in
    let vpn2 : ℕ = vpn1 / 2 ^ 9 in let i0 : ℕ = bit_and vpn2 (pte_per_page - 1) in (i0, i1, i2)

-- `Step` of the page numbers.
unfoldable pub forward_checked : ℕ → ℕ → Option ℕ
forward_checked start count = if ltb (start + count) usize_mod then some (start + count) else none

unfoldable pub backward_checked : ℕ → ℕ → Option ℕ
backward_checked start count = if leb count start then some (start - count) else none

unfoldable pub steps_between : ℕ → ℕ → ℕ × Option ℕ
steps_between start end =
    if leb start end then (end - start, some (end - start)) else (usize_mod - 1, none)

-- The kernel maps physical memory at a fixed distance.
pub kernel_va_to_pa : VirtAddr → KResult PhysAddr
unfolding sub
kernel_va_to_pa va = sub va pa_to_va

pub kernel_pa_to_va : PhysAddr → KResult VirtAddr
unfolding add
kernel_pa_to_va pa = add pa pa_to_va

pub kernel_vpn_to_ppn : VirtPageNum → KResult PhysPageNum
unfolding sub
kernel_vpn_to_ppn vpn = sub vpn (pa_to_va / page_size)

pub kernel_ppn_to_vpn : PhysPageNum → KResult VirtPageNum
unfolding add
kernel_ppn_to_vpn ppn = add ppn (pa_to_va / page_size)
