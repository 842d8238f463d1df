-- ===== src/Memory/PageTable.antt =====
-- `PageTable` of crates/libkernel/src/memory/memory_space/page_table.rs: the three levels of Sv39 in
-- physical frames. `frames` of `World` holds what lies in the frames, as page table entries, and
-- `supply` the frames that the next calls of `Frame::alloc` return; when it is empty the call
-- returns `None`, and its `unwrap` panics.
pub mod Walk
pub mod Leaf
pub mod Descent
pub mod Tree
pub mod Arrive
pub mod Refine
use Prim.Native.Nat.{bit_or}
use asynclear.Prelude.{
  ℕ, ◌*◌, ◌/◌, ◌<◌, ◌≡◌, Bool, true, false, not, ◌&&◌, Option, none, some, List, [], ◌∷◌, ltb, ◌==◌,
  if◌then◌else◌, KResult, ok, panic, ◌>>=◌, ◌>>◌, assert,
}
use asynclear.Config.{page_size}
use asynclear.Memory.Address.{VirtPageNum, PhysPageNum, indexes}
use asynclear.Memory.Pte.{PageTableEntry, PteFlags, v_flag, is_valid}
use asynclear.Memory.Pte

pub record World : Type 0 where
  pub frames : PhysPageNum → ℕ → PageTableEntry
  pub supply : List PhysPageNum

pub record PageTable : Type 0 where
  pub root_frame : PhysPageNum
  pub table_frames : List PhysPageNum

-- One entry written in place.
abbrev pub write :
    (PhysPageNum → ℕ → PageTableEntry)
    → PhysPageNum
    → ℕ
    → PageTableEntry
    → PhysPageNum
    → ℕ
    → PageTableEntry
write frames p line e p' line' = if (p == p') && (line == line') then e else frames p' line'

-- `Frame::alloc().unwrap()`: the frame is cleared.
unfoldable pub alloc_frame : World → KResult (PhysPageNum × World)
alloc_frame w = elim w.supply [
  | [] ↦ panic
  | p ∷ rest ↦ ok (
    p,
    record { frames = λ p' line. if p == p' then Pte.empty else w.frames p' line; supply = rest },
  )
]

-- One round of the loop of `find_pte_create` above the last level: the frame that the entry points
-- to, allocated if the entry is not valid.
unfoldable pub descend :
    World → PageTable → PhysPageNum → ℕ → KResult (PhysPageNum × World × PageTable)
unfolding alloc_frame
descend w t p line =
    if is_valid (w.frames p line)
    then ok (Pte.ppn (w.frames p line), w, t)
    else alloc_frame w >>= λ (f, w').
        let e = Pte.new f v_flag in
        ok (
          Pte.ppn e,
          record w' { frames = write w'.frames p line e },
          record t { table_frames = f ∷ t.table_frames },
        )

-- The frame and line of the leaf entry.
unfoldable pub find_pte_create :
    World → PageTable → VirtPageNum → KResult ((PhysPageNum × ℕ) × World × PageTable)
unfolding descend
find_pte_create w t vpn =
    let (i0, i1, i2) = indexes vpn in
    descend w t t.root_frame i0 >>= λ (p1, w1, t1).
    descend w1 t1 p1 i1 >>= λ (p2, w2, t2). ok ((p2, i2), w2, t2)

unfoldable pub map :
    World → PageTable → VirtPageNum → PhysPageNum → PteFlags → KResult (World × PageTable)
unfolding find_pte_create
map w t vpn ppn flags = find_pte_create w t vpn >>= λ ((p, line), w', t').
    assert (not (is_valid (w'.frames p line)))
    >> ok (record w' { frames = write w'.frames p line (Pte.new ppn (bit_or flags v_flag)) }, t')

unfoldable pub unmap : World → PageTable → VirtPageNum → KResult (World × PageTable)
unfolding find_pte_create
unmap w t vpn = find_pte_create w t vpn >>= λ ((p, line), w', t').
    assert (is_valid (w'.frames p line))
    >> ok (record w' { frames = write w'.frames p line Pte.empty }, t')
