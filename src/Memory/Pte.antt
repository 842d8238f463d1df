-- ===== src/Memory/Pte.antt =====
-- `PageTableEntry` of crates/libkernel/src/memory/memory_space/page_table.rs, and the permissions of
-- memory_space/mod.rs. A flags type of the bitflags crate is its bits; `from_bits_truncate` keeps
-- the declared bits.
pub mod Roundtrip
use Prim.Native.Nat.{bit_and, bit_or}
use asynclear.Prelude.{ℕ, ◌*◌, ◌/◌, ◌%◌, ◌^◌, Bool, ◌==◌}
use asynclear.Config.{usize_mod}
use asynclear.Memory.Address.{PhysPageNum}

abbrev pub PteFlags : Type 0
PteFlags = ℕ

abbrev pub v_flag : PteFlags
v_flag = 2 ^ 0

-- V, R, W, X, U, G, A, D and COW.
abbrev pub all_flags : PteFlags
all_flags = 0x1ff

pub record PageTableEntry : Type 0 where
  pub bits : ℕ

unfoldable pub new : PhysPageNum → PteFlags → PageTableEntry
new ppn flags = record { bits = bit_or (ppn * 2 ^ 10 % usize_mod) flags }

unfoldable pub empty : PageTableEntry
empty = record { bits = 0 }

unfoldable pub ppn : PageTableEntry → PhysPageNum
ppn e = bit_and (e.bits / 2 ^ 10) 0xfff_ffff_ffff

unfoldable pub flags : PageTableEntry → PteFlags
flags e = bit_and (e.bits % 2 ^ 16) all_flags

unfoldable pub is_valid : PageTableEntry → Bool
unfolding flags
is_valid e = bit_and (flags e) v_flag == v_flag

-- `MapPermission`: R, W, X, U and G, each at its bit of the entry.
abbrev pub MapPermission : Type 0
MapPermission = ℕ

abbrev pub all_permissions : MapPermission
all_permissions = 0x3e

abbrev pub u_permission : MapPermission
u_permission = 0x10

abbrev pub rwu_permission : MapPermission
rwu_permission = 0x16

unfoldable pub flags_from_permission : MapPermission → PteFlags
flags_from_permission mp = bit_and (mp % 2 ^ 16) all_flags

-- `From<MmapProt>`: the three protection bits move up by one.
unfoldable pub permission_from_prot : ℕ → MapPermission
permission_from_prot prot =
    bit_or (bit_and (prot * 2 % 2 ^ 32 % 2 ^ 8) all_permissions) u_permission
