-- ===== src/Memory/PageTable/Refine.antt =====
-- The page table as a map from pages to entries.
use asynclear.Prelude.{
  ◌+◌, ◌<◌, ◌≤◌, ◌≡◌, ◌≢◌, ◌^◌, refl, Option, true, false, none, some, length, if◌then◌else◌, ok,
  panic, arith, sym, ◌∙◌,
}
use Prim.Native.Nat.{bit_or}
use asynclear.Memory.Address.{VirtPageNum, PhysPageNum}
use asynclear.Memory.Pte.{PageTableEntry, PteFlags, v_flag, is_valid, ppn}
use asynclear.Memory.Pte
use asynclear.Memory.Pte.Roundtrip.{map_entry}
use asynclear.Memory.PageTable.{PageTable, World, write, map, unmap}
use asynclear.Memory.PageTable.Walk.{lookup, path_of, walk_ends}
use asynclear.Memory.PageTable.Tree.{Shape}
use asynclear.Memory.PageTable.Leaf.{write-IsTree, leaf_write}
use asynclear.Memory.PageTable.Descent.{IsPaged}
use asynclear.Memory.PageTable.Arrive.{Arrival, find_lem, find_mapped}

-- An entry of a page's leaf, written after `find_pte_create`.
pub record Written (g : Shape) (w : World) (t : PageTable) (vpn : VirtPageNum)
    (e : Option PageTableEntry) (w' : World) (t' : PageTable) : Type 0 where
  pub shape : Shape
  pub paged : IsPaged shape w' t'
  pub here : lookup w' t' vpn ≡ e
  pub elsewhere : (n : VirtPageNum) → n < 2 ^ 27 → n ≢ vpn → lookup w' t' n ≡ lookup w t n
  pub spent : length w.supply ≤ length w'.supply + 2

write_at :
    (g : Shape) (w : World) (t : PageTable) (vpn : VirtPageNum) (e : PageTableEntry)
    → vpn < 2 ^ 27
    → (a : Arrival g w t vpn)
    → Written g w t vpn
        (if is_valid e then some e else none)
        (record a.world { frames = write a.world.frames a.leaf a.entry_line e })
        a.table
write_at g w t vpn e h a =
    let l =
      leaf_write a.shape a.world.frames a.table.root_frame a.paged.tree a.leaf a.entry_line e a.deep
        vpn h a.reaches in
    record {
      shape = a.shape;
      paged = record {
        tree =
            write-IsTree a.shape a.world.frames a.table.root_frame a.paged.tree a.leaf a.entry_line
              e a.deep;
        fresh = a.paged.fresh;
      };
      here = l.0;
      elsewhere = λ n hn ne. l.1 n hn ne ∙ a.walks n;
      spent = a.spent;
    }

-- What the leaf holds is what the processor finds.
leaf_holds :
    (g : Shape) (w : World) (t : PageTable) (vpn : VirtPageNum) (a : Arrival g w t vpn)
    → lookup w t vpn ≡ (
        if is_valid (a.world.frames a.leaf a.entry_line)
        then some (a.world.frames a.leaf a.entry_line)
        else none)
leaf_holds g w t vpn a =
    sym (a.walks vpn)
    ∙ walk_ends a.world.frames a.table.root_frame (path_of vpn) a.leaf a.entry_line a.reaches

-- `map` of a page that is not mapped, with two frames left for tables: it succeeds; the processor then
-- finds the new entry for the page, with the V flag added, and for every other page what it found
-- before; and the tables form a tree again.
pub map_lem :
    (g : Shape) (w : World) (t : PageTable) (vpn : VirtPageNum) (p : PhysPageNum) (f : PteFlags)
    → IsPaged g w t
    → 2 ≤ length w.supply
    → vpn < 2 ^ 27
    → p < 2 ^ 44
    → f < 2 ^ 9
    → lookup w t vpn ≡ none
    → (w' : World) × (t' : PageTable) × (map w t vpn p f ≡ ok (w', t'))
      × Written g w t vpn (some (Pte.new p (bit_or f v_flag))) w' t'
unfolding map
map_lem g w t vpn p f v s hv hp hf free =
    let a = find_lem g w t vpn v s in
    let e = Pte.new p (bit_or f v_flag) in
    let d : is_valid (a.world.frames a.leaf a.entry_line) ≡ false =
      ground (arith, free, leaf_holds g w t vpn a) in
    (_, a.table, rw (a.runs, d) refl, rw (map_entry p f hp hf).2 at (write_at g w t vpn e hv a))

-- `unmap` of a page that is mapped: it succeeds, whether frames are left or not; the processor then
-- finds nothing for the page, and for every other page what it found before; and the tables form a
-- tree again.
pub unmap_lem :
    (g : Shape) (w : World) (t : PageTable) (vpn : VirtPageNum) (e : PageTableEntry)
    → IsPaged g w t
    → vpn < 2 ^ 27
    → lookup w t vpn ≡ some e
    → (w' : World) × (t' : PageTable) × (unmap w t vpn ≡ ok (w', t')) × Written g w t vpn none w' t'
unfolding unmap
unmap_lem g w t vpn e v hv used =
    let a = find_mapped g w t vpn e v used in
    let d : is_valid (a.world.frames a.leaf a.entry_line) ≡ true =
      ground (arith, used, leaf_holds g w t vpn a) in
    (
      _,
      a.table,
      rw (a.runs, d) refl,
      rw (map_entry 0 0 (omega arith) (omega arith)).3 at (write_at g w t vpn Pte.empty hv a),
    )

-- `map` of a page that is mapped panics.
pub map_mapped :
    (g : Shape) (w : World) (t : PageTable) (vpn : VirtPageNum) (e : PageTableEntry)
    (p : PhysPageNum) (f : PteFlags)
    → IsPaged g w t
    → lookup w t vpn ≡ some e
    → map w t vpn p f ≡ panic
unfolding map
map_mapped g w t vpn e p f v used =
    let a = find_mapped g w t vpn e v used in
    let d : is_valid (a.world.frames a.leaf a.entry_line) ≡ true =
      ground (arith, used, leaf_holds g w t vpn a) in
    rw (a.runs, d) refl

-- `unmap` of a page that is not mapped panics, when two frames are left for the tables that it creates on
-- the way.
pub unmap_free :
    (g : Shape) (w : World) (t : PageTable) (vpn : VirtPageNum)
    → IsPaged g w t
    → 2 ≤ length w.supply
    → lookup w t vpn ≡ none
    → unmap w t vpn ≡ panic
unfolding unmap
unmap_free g w t vpn v s free =
    let a = find_lem g w t vpn v s in
    let d : is_valid (a.world.frames a.leaf a.entry_line) ≡ false =
      ground (arith, free, leaf_holds g w t vpn a) in
    rw (a.runs, d) refl
