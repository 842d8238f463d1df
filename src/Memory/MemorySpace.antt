-- ===== src/Memory/MemorySpace.antt =====
-- `MemorySpace` of crates/libkernel/src/memory/memory_space/mod.rs: the areas of a user address
-- space, by the page at which they start, over the page table.
pub mod Areas
pub mod Gap
pub mod Mapping
pub mod Unmapping
use Prim.Native.Nat.{bit_and}
use asynclear.Prelude.{
  ℕ, ◌+◌, ◌*◌, ◌/◌, max, Bool, true, false, not, ◌&&◌, Option, none, some, List, [], ◌∷◌, ◌++◌, ltb,
  leb, ◌==◌, if◌then◌else◌, KResult, ok, err, panic, einval, unsupported, enomem, ◌>>=◌, ◌>>◌,
  assert, unwrap,
}
use asynclear.Config.{page_offset_mask, low_address_end, mmap_start}
use asynclear.BTreeMap.{BTreeMap, get, insert, remove, before, after, last?, last_entry}
use asynclear.Memory.Address.{
  VirtAddr, VirtPageNum, PhysPageNum, add, page_start, vpn_floor, vpn_ceil,
}
use asynclear.Memory.Pte.{MapPermission, rwu_permission}
use asynclear.Memory.PageTable.{PageTable, World}
use asynclear.Memory.VmArea.{VmArea, AreaType, lazy, mmap}
use asynclear.Memory.VmArea

-- With the frames of the machine, which all address spaces share.
pub record MemorySpace : Type 0 where
  pub page_table : PageTable
  pub user_areas : BTreeMap VmArea
  pub world : World

-- `start` after the area before it.
abbrev pub skip_prev : VirtPageNum → Option VmArea → VirtPageNum
skip_prev start none = start
skip_prev start (some a) = max start a.end

-- The `while` loop of `try_find_mmap_area` over the areas after the cursor, and what follows it.
unfoldable pub find_gap : VirtPageNum → ℕ → BTreeMap VmArea → KResult (VirtPageNum × VirtPageNum)
find_gap start len [] = do
  end_va ← add (page_start start) len
  if leb end_va low_address_end then ok (start, vpn_ceil end_va) else err enomem
find_gap start len ((k, a) ∷ rest) = do
  end_va ← add (page_start start) len
  let next = find_gap a.end len rest
  if leb end_va (page_start a.start) then ok (start, vpn_ceil end_va) else next

-- `fixed` tells whether the flags hold `MAP_FIXED`, and `len` is not 0.
unfoldable pub try_find_mmap_area :
    BTreeMap VmArea → VirtAddr → ℕ → Bool → KResult (VirtPageNum × VirtPageNum)
unfolding find_gap
try_find_mmap_area areas addr len fixed =
    let start = vpn_floor (max mmap_start addr) in
    let rest = after areas (start + 1) in
    let prev = last? (before areas (start + 1)) in
    if fixed
    then (if bit_and addr page_offset_mask == 0 then err unsupported else err einval)
    else find_gap (skip_prev start prev) len rest

unfoldable pub user_map : MemorySpace → VirtPageNum → VirtPageNum → MapPermission → MemorySpace
user_map m start end perm = record m {
  user_areas = insert m.user_areas start (VmArea.new start end perm lazy);
}

unfoldable pub try_map :
    MemorySpace → VirtAddr → ℕ → MapPermission → Bool → KResult (VirtPageNum × MemorySpace)
unfolding user_map
try_map m addr len perm fixed = do
  (start, end) ← try_find_mmap_area m.user_areas addr len fixed
  ok (start, user_map m start end perm)

-- `cache` is the page cache of the inode.
unfoldable pub user_map_with_file :
    MemorySpace
    → VirtPageNum
    → VirtPageNum
    → MapPermission
    → ℕ
    → BTreeMap PhysPageNum
    → ℕ
    → KResult MemorySpace
user_map_with_file m start end perm inode cache page_id = do
  (a, w, t) ←
      VmArea.init_backed_inode (VmArea.new start end perm mmap) inode page_id cache m.world
        m.page_table
  ok (record m { world = w; page_table = t; user_areas = insert m.user_areas start a })

unfoldable pub try_map_inode :
    MemorySpace
    → VirtAddr
    → ℕ
    → MapPermission
    → Bool
    → ℕ
    → BTreeMap PhysPageNum
    → ℕ
    → KResult (VirtPageNum × MemorySpace)
unfolding user_map_with_file
try_map_inode m addr len perm fixed inode cache page_id = do
  (start, end) ← try_find_mmap_area m.user_areas addr len fixed
  m' ← user_map_with_file m start end perm inode cache page_id
  ok (start, m')

-- Needs `heap_start < new_end`, which the caller checks.
unfoldable pub set_user_brk : MemorySpace → VirtPageNum → VirtPageNum → KResult MemorySpace
unfolding user_map
set_user_brk m heap_start new_end = elim (get m.user_areas heap_start) [
  | none ↦ ok (user_map m heap_start new_end rwu_permission)
  | some a ↦
      if leb new_end a.end
      then (VmArea.shrink a new_end m.world m.page_table >>= λ (a', w, t).
          ok (record m {
            world = w;
            page_table = t;
            user_areas = insert m.user_areas heap_start a';
          }))
      else ok (record m { user_areas = insert m.user_areas heap_start (VmArea.expand a new_end) })
]

-- The first loop of `unmap`: the starts of the areas inside the range. An area that is partly inside
-- is `todo!`.
unfoldable pub inside_range :
    VirtPageNum → VirtPageNum → BTreeMap VmArea → KResult (List VirtPageNum)
inside_range start end [] = ok []
inside_range start end ((k, a) ∷ rest) =
    let next = inside_range start end rest in
    if leb start a.start && leb a.end end
    then (next >>= λ l. ok (a.start ∷ l))
    else if leb a.end start
    then next
    else if leb end a.start
    then ok []
    else panic

-- The second loop.
unfoldable pub unmap_areas : MemorySpace → List VirtPageNum → KResult MemorySpace
unmap_areas m [] = ok m
unmap_areas m (vpn ∷ rest) = do
  a ← unwrap (get m.user_areas vpn)
  (a', w, t) ← VmArea.unmap a m.world m.page_table
  unmap_areas (record m { world = w; page_table = t; user_areas = remove m.user_areas vpn }) rest

-- The areas that the cursor of `unmap` meets: one step back from the first that starts at `start` or
-- later.
abbrev pub from_prev : BTreeMap VmArea → VirtPageNum → BTreeMap VmArea
from_prev areas start = last_entry (before areas start) ++ after areas start

unfoldable pub unmap : MemorySpace → VirtAddr → VirtAddr → KResult MemorySpace
unfolding inside_range unmap_areas
unmap m va_start va_end = do
  let start = vpn_floor va_start
  to_unmap ← inside_range start (vpn_ceil va_end) (from_prev m.user_areas start)
  unmap_areas m to_unmap

unfoldable pub remove_area_with_start_vpn : MemorySpace → VirtPageNum → KResult MemorySpace
remove_area_with_start_vpn m start = elim (get m.user_areas start) [
  | none ↦ ok m
  | some a ↦ do
    (a', w, t) ← VmArea.unmap a m.world m.page_table
    ok (record m { world = w; page_table = t; user_areas = remove m.user_areas start })
]

-- The area that holds the page is found: a fault in a mapped file is `todo!`.
unfoldable pub allocate_in : MemorySpace → VmArea → VirtPageNum → KResult (Bool × MemorySpace)
allocate_in m a vpn = elim a.area_type [
  | mmap ↦ panic
  | lazy ↦ do
    (frame, a', w, t) ← VmArea.ensure_allocated a vpn m.world m.page_table
    ok (true, record m { world = w; page_table = t; user_areas = insert m.user_areas a.start a' })
]

-- `maybe_cow` is `todo!`.
unfoldable pub handle_memory_exception :
    MemorySpace → VirtAddr → Bool → KResult (Bool × MemorySpace)
handle_memory_exception m addr true = panic
handle_memory_exception m addr false =
    let vpn = vpn_floor addr in
    elim (last? (before m.user_areas (vpn + 1))) [
      | none ↦ ok (false, m)
      | some a ↦ if leb a.end vpn then ok (false, m) else allocate_in m a vpn
    ]
