-- ===== src/Memory/VmArea.antt =====
-- `FramedVmArea` of crates/libkernel/src/memory/memory_space/vm_area.rs, over the page table of
-- `PageTable`. A frame is its physical page number, and an inode is a number.
use asynclear.Prelude.{
  ℕ, ◌+◌, ◌-◌, ◌*◌, Bool, true, false, Option, none, some, List, [], ◌∷◌, ◌++◌, leb, KResult, ok,
  ◌>>=◌, ◌>>◌, assert,
}
use asynclear.Config.{page_size}
use asynclear.BTreeMap.{BTreeMap, get, insert, before, after, keys}
use asynclear.Memory.Address.{VirtPageNum, PhysPageNum}
use asynclear.Memory.Pte.{MapPermission, flags_from_permission}
use asynclear.Memory.PageTable.{PageTable, World}
use asynclear.Memory.PageTable

pub data AreaType : Type 0 where
  lazy mmap : AreaType

abbrev pub is_lazy : AreaType → Bool
is_lazy lazy = true
is_lazy mmap = false

pub record VmArea : Type 0 where
  pub start : VirtPageNum
  pub end : VirtPageNum
  pub perm : MapPermission
  pub area_type : AreaType
  pub unbacked_map : BTreeMap PhysPageNum
  pub backed_inode : Option ℕ
  pub backed_pages : List VirtPageNum
  pub backed_inode_page_id : ℕ

unfoldable pub new : VirtPageNum → VirtPageNum → MapPermission → AreaType → VmArea
new start end perm area_type = record {
  start = start;
  end = end;
  perm = perm;
  area_type = area_type;
  unbacked_map = [];
  backed_inode = none;
  backed_pages = [];
  backed_inode_page_id = 0;
}

-- `saturating_sub` is the subtraction of ℕ.
pub len : VmArea → ℕ
len a = (a.end - a.start) * page_size

-- The page table entries of a list of pages are cleared in turn.
unfoldable pub unmap_pages : World → PageTable → List VirtPageNum → KResult (World × PageTable)
unmap_pages w t [] = ok (w, t)
unmap_pages w t (vpn ∷ rest) = PageTable.unmap w t vpn >>= λ (w', t'). unmap_pages w' t' rest

-- The pages of the inode's page cache are mapped from `start` on.
unfoldable pub map_cached :
    VirtPageNum
    → ℕ
    → MapPermission
    → World
    → PageTable
    → List VirtPageNum
    → BTreeMap PhysPageNum
    → KResult (World × PageTable × List VirtPageNum)
map_cached start first perm w t pages [] = ok (w, t, pages)
map_cached start first perm w t pages ((id, frame) ∷ rest) =
    let vpn = start + (id - first) in
    PageTable.map w t vpn frame (flags_from_permission perm) >>= λ (w', t').
    map_cached start first perm w' t' (pages ++ (vpn ∷ [])) rest

-- `cache` is the page cache of `inode`: the frames of its pages, by page number in the file.
unfoldable pub init_backed_inode :
    VmArea → ℕ → ℕ → BTreeMap PhysPageNum → World → PageTable → KResult (VmArea × World × PageTable)
unfolding map_cached
init_backed_inode a inode page_id cache w t = do
  assert (leb a.start a.end)
  let n_pages = a.end - a.start
  (w', t', pages) ←
      map_cached a.start page_id a.perm w t a.backed_pages
        (before (after cache page_id) (page_id + n_pages))
  ok (
    record a { backed_inode = some inode; backed_pages = pages; backed_inode_page_id = page_id },
    w',
    t',
  )

-- Returns the frame of the page too.
unfoldable pub ensure_allocated :
    VmArea → VirtPageNum → World → PageTable → KResult (PhysPageNum × VmArea × World × PageTable)
ensure_allocated a vpn w t = do
  assert (is_lazy a.area_type)
  elim (get a.unbacked_map vpn) [
    | some frame ↦ ok (frame, a, w, t)
    | none ↦ do
      (frame, w') ← PageTable.alloc_frame w
      (w2, t2) ← PageTable.map w' t vpn frame (flags_from_permission a.perm)
      ok (frame, record a { unbacked_map = insert a.unbacked_map vpn frame }, w2, t2)
  ]

unfoldable pub unmap : VmArea → World → PageTable → KResult (VmArea × World × PageTable)
unfolding unmap_pages
unmap a w t = do
  (w', t') ← unmap_pages w t (keys a.unbacked_map ++ a.backed_pages)
  ok (
    record a {
      unbacked_map = [];
      backed_inode = none;
      backed_pages = [];
      backed_inode_page_id = 0;
    },
    w',
    t',
  )

unfoldable pub shrink :
    VmArea → VirtPageNum → World → PageTable → KResult (VmArea × World × PageTable)
unfolding unmap_pages
shrink a new_end w t = do
  assert (is_lazy a.area_type)
  (w', t') ← unmap_pages w t (keys (after a.unbacked_map new_end))
  ok (record a { unbacked_map = before a.unbacked_map new_end; end = new_end }, w', t')

unfoldable pub expand : VmArea → VirtPageNum → VmArea
expand a new_end = record a { end = new_end }
