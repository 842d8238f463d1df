-- ===== src/Memory/Tests.antt =====
-- Addresses, page tables and the search for pages on examples.
use Prim.Native.Nat.{bit_or}
use asynclear.Prelude.{◌≡◌, refl, [], ◌∷◌, none, some, ok, arith, false, ◌==◌, if◌then◌else◌, max}
use asynclear.Config.{mmap_start}
use asynclear.BTreeMap.{BTreeMap}
use asynclear.Memory.Address.{indexes, vpn_floor, vpn_ceil}
use asynclear.Memory.Pte.{ppn, flags, is_valid, v_flag, PageTableEntry}
use asynclear.Memory.Pte
use asynclear.Memory.Pte.Roundtrip.{map_entry}
use asynclear.Memory.PageTable.{World, PageTable}
use asynclear.Memory.PageTable
use asynclear.Memory.PageTable.Walk.{lookup}
use asynclear.Memory.PageTable.Tree.{Shape}
use asynclear.Memory.PageTable.Descent.{IsPaged}
use asynclear.Memory.PageTable.Refine.{Written, map_lem, unmap_lem}
use asynclear.Memory.VmArea.{VmArea, lazy}
use asynclear.Memory.VmArea
use asynclear.Memory.MemorySpace.{MemorySpace, try_find_mmap_area}
use asynclear.Memory.MemorySpace.Areas.{AreValid}
use asynclear.Memory.MemorySpace.Gap.{GapOutcome, try_find_mmap_area_lem}

-- A root table in frame 1 without entries, and two frames to come.
abbrev bare_world : World
bare_world = record { frames = λ p i. Pte.empty; supply = 2 ∷ 3 ∷ [] }

abbrev bare_table : PageTable
bare_table = record { root_frame = 1; table_frames = [] }

abbrev bare_shape : Shape
bare_shape = record { depth = λ p. if p == 1 then 0 else 3; parent = λ p. 0; line = λ p. 0 }

empty_invalid : is_valid Pte.empty ≡ false
empty_invalid = (map_entry 0 0 (omega arith) (omega arith)).3

bare-IsPaged : IsPaged bare_shape bare_world bare_table
bare-IsPaged = record {
  tree = record { top = refl; child = λ p i hp hi y. absurd (ground (arith, y, empty_invalid)) };
  fresh = (refl, omega arith, refl, (refl, omega arith, refl, tt));
}

bare-lookup : lookup bare_world bare_table 7 ≡ none
unfolding indexes is_valid flags Pte.empty
bare-lookup = refl

map_lem_example :
    (w' : World) × (t' : PageTable) × (PageTable.map bare_world bare_table 7 0x80300 0x16
      ≡ ok (w', t'))
    × Written bare_shape bare_world bare_table 7 (some (Pte.new 0x80300 (bit_or 0x16 v_flag))) w' t'
map_lem_example =
    map_lem bare_shape bare_world bare_table 7 0x80300 0x16 bare-IsPaged (omega arith) (omega arith)
      (omega arith) (omega arith) bare-lookup

-- The same table with page 7 mapped.
with_page :
    (w' : World) × (t' : PageTable) × (PageTable.map bare_world bare_table 7 0x80300 0x16
      ≡ ok (w', t'))
    × Written bare_shape bare_world bare_table 7 (some (Pte.new 0x80300 (bit_or 0x16 v_flag))) w' t'
with_page =
    map_lem bare_shape bare_world bare_table 7 0x80300 0x16 bare-IsPaged (omega arith) (omega arith)
      (omega arith) (omega arith) bare-lookup

unmap_lem_example :
    (w' : World) × (t' : PageTable) × (PageTable.unmap with_page.0 with_page.1 7 ≡ ok (w', t'))
    × Written with_page.3.shape with_page.0 with_page.1 7 none w' t'
unmap_lem_example =
    unmap_lem with_page.3.shape with_page.0 with_page.1 7 (Pte.new 0x80300 (bit_or 0x16 v_flag))
      with_page.3.paged (omega arith) with_page.3.here

-- Two areas, one of which starts where the search does.
abbrev two_areas : BTreeMap VmArea
two_areas =
    (0x10000, VmArea.new 0x10000 0x10004 0x16 lazy)
    ∷ (0x200_0000, VmArea.new 0x200_0000 0x200_0002 0x16 lazy)
    ∷ []

two_areas-AreValid : AreValid two_areas
unfolding VmArea.new
two_areas-AreValid =
    (refl, omega arith, omega arith, omega arith, (refl, omega arith, omega arith, omega arith, tt))

try_find_mmap_area_lem_example :
    GapOutcome
      (vpn_floor (max mmap_start 0))
      (vpn_ceil 5000)
      5000
      two_areas
      (try_find_mmap_area two_areas 0 5000 false)
try_find_mmap_area_lem_example =
    try_find_mmap_area_lem two_areas 0 5000 two_areas-AreValid (omega arith) (omega arith)

-- An address space with the two areas over the bare table.
abbrev space : MemorySpace
space = record { page_table = bare_table; user_areas = two_areas; world = bare_world }
