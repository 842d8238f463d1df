-- ===== src/Memory/PageTable/Arrive.antt =====
-- Where `find_pte_create` arrives in a tree of tables.
use asynclear.Prelude.{
  ℕ, suc, ◌+◌, ◌<◌, ◌≤◌, ◌≡◌, ◌^◌, refl, ap, true, some, [], ◌∷◌, length, ok, arith, ◌∙◌, ◌/◌, ◌%◌,
}
use asynclear.Memory.Address.{VirtPageNum, PhysPageNum}
use asynclear.Memory.Address.Indexes.{indexes_value}
use asynclear.Memory.Pte.{PageTableEntry, is_valid, ppn}
use asynclear.Memory.PageTable.{PageTable, World, find_pte_create}
use asynclear.Memory.PageTable.Walk.{Frames, walk, lookup, path_of, path_of-bound, Reaches}
use asynclear.Memory.PageTable.Tree.{Shape}
use asynclear.Memory.PageTable.Descent.{IsPaged, Descent, descend_lem, descend_present}

-- Where `find_pte_create` arrives.
pub record Arrival (g : Shape) (w : World) (t : PageTable) (vpn : VirtPageNum) : Type 0 where
  pub leaf : PhysPageNum
  pub entry_line : ℕ
  pub shape : Shape
  pub world : World
  pub table : PageTable
  pub runs : find_pte_create w t vpn ≡ ok ((leaf, entry_line), world, table)
  pub paged : IsPaged shape world table
  pub deep : shape.depth leaf ≡ 2
  pub reaches : Reaches world.frames table.root_frame (path_of vpn) leaf entry_line
  pub walks : (n : VirtPageNum) → lookup world table n ≡ lookup w t n
  pub spent : length w.supply ≤ length world.supply + 2

reach :
    (frames : Frames) (r q p i0 i1 i2 : ℕ)
    → is_valid (frames r i0) ≡ true
    → ppn (frames r i0) ≡ q
    → is_valid (frames q i1) ≡ true
    → ppn (frames q i1) ≡ p
    → Reaches frames r (i0 ∷ i1 ∷ i2 ∷ []) p i2
reach frames r q p i0 i1 i2 h0 h1 h2 h3 = (h0, rw h1 (h2, (h3, refl)))

module _ (g : Shape) (w : World) (t : PageTable) (vpn : VirtPageNum) (v : IsPaged g w t) where
  -- Two steps down from the root.
  arrive :
      (i0 i1 : ℕ)
      → i0 ≡ vpn / 2 ^ 18 % 512
      → i1 ≡ vpn / 2 ^ 9 % 512
      → (a : Descent g w t t.root_frame i0) → Descent a.shape a.world a.table a.below i1
      → Arrival g w t vpn
  unfolding find_pte_create
  arrive i0 i1 e0 e1 a b =
      let r1 : a.shape.depth t.root_frame ≡ 0 =
        a.grows.depth t.root_frame (omega (arith, v.tree.top)) ∙ v.tree.top in
      let same : b.world.frames t.root_frame i0 ≡ a.world.frames t.root_frame i0 =
        b.grows.kept t.root_frame i0 (omega (arith, r1)) a.valid in
      let r2 : b.shape.depth a.below ≡ 1 =
        b.grows.depth a.below (omega (arith, a.is_child.0, r1)) ∙ a.is_child.0 ∙ ap suc r1 in
      let root : b.table.root_frame ≡ t.root_frame = b.grows.root ∙ a.grows.root in
      record {
        leaf = b.below;
        entry_line = vpn % 512;
        shape = b.shape;
        world = b.world;
        table = b.table;
        runs = rw (indexes_value vpn, ← e0, ← e1, a.runs, b.runs) refl;
        paged = b.grows.paged;
        deep = b.is_child.0 ∙ ap suc r2;
        reaches =
            rw (indexes_value vpn, ← e0, ← e1, root)
              (reach b.world.frames t.root_frame a.below b.below i0 i1 (vpn % 512) (rw same a.valid)
                (rw same a.points) b.valid b.points);
        walks = λ n. rw root (
            b.grows.walks t.root_frame (path_of n) (omega (arith, r1)) (path_of-bound n)
            ∙ a.grows.walks t.root_frame (path_of n) (omega (arith, v.tree.top)) (path_of-bound n));
        spent = omega (arith, a.grows.spent, b.grows.spent);
      }

  next_descent :
      (i0 i1 : ℕ)
      → i1 < 512
      → 2 ≤ length w.supply
      → (a : Descent g w t t.root_frame i0) → Descent a.shape a.world a.table a.below i1
  next_descent i0 i1 h s a =
      descend_lem a.shape a.world a.table a.below i1 a.grows.paged
        (omega
          (arith, a.is_child.0, a.grows.depth t.root_frame (omega (arith, v.tree.top)), v.tree.top))
        h (omega (arith, a.grows.spent))

  pub find_lem : 2 ≤ length w.supply → Arrival g w t vpn
  find_lem s =
      let a =
        descend_lem g w t t.root_frame (vpn / 2 ^ 18 % 512) v (omega (arith, v.tree.top))
          (omega arith) (omega arith) in
      arrive _ _ refl refl a (next_descent _ (vpn / 2 ^ 9 % 512) (omega arith) s a)

-- A page that is mapped has its tables.
mapped_tables :
    (frames : Frames) (r i0 i1 i2 : ℕ) (e : PageTableEntry)
    → walk frames r (i0 ∷ i1 ∷ i2 ∷ []) ≡ some e
    → (is_valid (frames r i0) ≡ true) × (is_valid (frames (ppn (frames r i0)) i1) ≡ true)
mapped_tables frames r i0 i1 i2 e h = ground arith

pub find_mapped :
    (g : Shape) (w : World) (t : PageTable) (vpn : VirtPageNum) (e : PageTableEntry)
    → IsPaged g w t
    → lookup w t vpn ≡ some e
    → Arrival g w t vpn
find_mapped g w t vpn e v h =
    let m = mapped_tables w.frames t.root_frame _ _ _ e (rw (indexes_value vpn) at h) in
    let a =
      descend_present g w t t.root_frame (vpn / 2 ^ 18 % 512) v (omega (arith, v.tree.top))
        (omega arith) m.0 in
    let deep =
      v.tree.child t.root_frame (vpn / 2 ^ 18 % 512) (omega (arith, v.tree.top)) (omega arith)
        m.0 in
    arrive g w t vpn v _ _ refl refl a (
      descend_present g w t (ppn (w.frames t.root_frame (vpn / 2 ^ 18 % 512))) (vpn / 2 ^ 9 % 512) v
        (omega (arith, deep.0, v.tree.top)) (omega arith) m.1)
