-- ===== src/Config.antt =====
-- Constants of crates/utils/common/src/config.rs.
use asynclear.Prelude.{ℕ, ◌^◌}

abbrev pub page_size_bits : ℕ
page_size_bits = 12

abbrev pub page_size : ℕ
page_size = 4096

abbrev pub page_offset_mask : ℕ
page_offset_mask = 4095

abbrev pub pte_per_page : ℕ
pte_per_page = 512

abbrev pub pa_to_va : ℕ
pa_to_va = 0xffff_ffff_0000_0000

abbrev pub user_stack_size : ℕ
user_stack_size = 0x80_0000

abbrev pub mmap_start : ℕ
mmap_start = 0x20_0000_0000

abbrev pub low_address_end : ℕ
low_address_end = 0x40_0000_0000

abbrev pub max_pathname_len : ℕ
max_pathname_len = 0x4000

-- The size of `usize` and `u64`.
abbrev pub usize_mod : ℕ
usize_mod = 2 ^ 64
