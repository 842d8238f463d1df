-- ===== src/Memory/Address/Pages.antt =====
-- Addresses and the pages that hold them.
use asynclear.Prelude.{◌*◌, ◌^◌, ◌≤◌, ◌<◌, ◌≡◌, ◌↔◌, max, ok, ◌>>=◌, and_mask, arith}
use asynclear.Config.{page_size, usize_mod}
use asynclear.Memory.Address.{
  VirtAddr, VirtPageNum, PhysPageNum, page_offset, vpn_floor, vpn_ceil, page_start, with_offset,
  kernel_vpn_to_ppn, kernel_ppn_to_vpn,
}

-- An address is the start of its page plus its offset, and the offset stays inside the page.
pub page_split :
    (va : VirtAddr)
    → va < usize_mod
    → (with_offset (vpn_floor va) (page_offset va) ≡ ok va) × (page_offset va < page_size)
unfolding with_offset page_offset vpn_floor page_start
page_split va h = ground (arith, and_mask 12 va)

-- The pages from `vpn_floor` of the start up to `vpn_ceil` of the end of a non-empty byte range are
-- exactly the pages that hold a byte of it.
pub page_range_exact :
    (s e : VirtAddr) (p : VirtPageNum)
    → s < e
    → ((vpn_floor s ≤ p) × (p < vpn_ceil e))
      ↔ ((x : VirtAddr) × (s ≤ x) × (x < e) × (vpn_floor x ≡ p))
unfolding vpn_floor vpn_ceil
page_range_exact s e p h = (
  λ b. (max s (p * 4096), omega arith, omega arith, omega arith),
  λ w. (omega arith, omega arith),
)

-- Rounding an aligned address up or down gives its page, and the start of that page is the address.
pub page_start-vpn :
    (n : VirtPageNum) → n < 2 ^ 52 → (vpn_floor (page_start n) ≡ n) × (vpn_ceil (page_start n) ≡ n)
unfolding vpn_floor vpn_ceil page_start
page_start-vpn n h = (omega arith, omega arith)

-- The kernel's view of physical pages: translating forth and back returns the page.
pub kernel_ppn_roundtrip :
    (ppn : PhysPageNum) → ppn < 2 ^ 44 → (kernel_ppn_to_vpn ppn >>= kernel_vpn_to_ppn) ≡ ok ppn
unfolding kernel_ppn_to_vpn kernel_vpn_to_ppn
kernel_ppn_roundtrip ppn h = ground arith
