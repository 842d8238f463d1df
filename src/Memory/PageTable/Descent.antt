-- ===== src/Memory/PageTable/Descent.antt =====
-- What a step down the tables does, when it may allocate one.
use asynclear.Prelude.{
  ℕ, ◌+◌, ◌<◌, ◌≤◌, ◌≡◌, ◌≢◌, refl, ap, true, false, List, [], ◌∷◌, length, ok, arith, inl, inr,
  Bool-cases, All, sym, subst, contains,
}
use asynclear.Memory.Address.{PhysPageNum}
use asynclear.Memory.Pte.{v_flag, is_valid, ppn, new}
use asynclear.Memory.Pte.Roundtrip.{map_entry}
use asynclear.Memory.PageTable.{PageTable, World, alloc_frame, descend}
use asynclear.Memory.PageTable.Walk.{Frames, walk, write_self}
use asynclear.Memory.PageTable.Tree.{
  Shape, IsTree, IsChild, AreFresh, grow, link, clear, link_ne, new_IsChild, walk-link, grow-IsTree,
  grow_depth,
}

-- The tables form a tree, and the frames to come are free.
pub record IsPaged (g : Shape) (w : World) (t : PageTable) : Type 0 where
  pub tree : IsTree g w.frames t.root_frame
  pub fresh : AreFresh g w.supply

-- What is kept when tables are added: the levels, the walks, the valid entries; `n` frames are taken
-- at most.
pub record Grows (n : ℕ) (g : Shape) (w : World) (t : PageTable) (g' : Shape) (w' : World)
    (t' : PageTable) : Type 0 where
  pub paged : IsPaged g' w' t'
  pub root : t'.root_frame ≡ t.root_frame
  pub depth : (q : PhysPageNum) → g.depth q < 3 → g'.depth q ≡ g.depth q
  pub walks :
      (q : PhysPageNum) (is : List ℕ)
      → g.depth q + length is ≡ 3
      → All (λ (i : ℕ). i < 512) is
      → walk w'.frames q is ≡ walk w.frames q is
  pub kept :
      (q : PhysPageNum) (i : ℕ)
      → g.depth q < 3
      → is_valid (w.frames q i) ≡ true
      → w'.frames q i ≡ w.frames q i
  pub spent : length w.supply ≤ length w'.supply + n

AreFresh-grow :
    (g : Shape) (f p k : ℕ) (fs : List ℕ)
    → contains fs f ≡ false
    → AreFresh g fs
    → AreFresh (grow g f p k) fs
AreFresh-grow g f p k [] h v = tt
AreFresh-grow g f p k (x ∷ fs) h v = ground (arith, AreFresh-grow g f p k fs)

pub record Descent (g : Shape) (w : World) (t : PageTable) (p : PhysPageNum) (i : ℕ) : Type 0 where
  pub below : PhysPageNum
  pub shape : Shape
  pub world : World
  pub table : PageTable
  pub runs : descend w t p i ≡ ok (below, world, table)
  pub grows : Grows 1 g w t shape world table
  pub valid : is_valid (world.frames p i) ≡ true
  pub points : ppn (world.frames p i) ≡ below
  pub is_child : IsChild shape p i below

pub descend_valid :
    (w : World) (t : PageTable) (p i : ℕ)
    → is_valid (w.frames p i) ≡ true
    → descend w t p i ≡ ok (ppn (w.frames p i), w, t)
unfolding descend
descend_valid w t p i h = rw h refl

abbrev pub descend_present :
    (g : Shape) (w : World) (t : PageTable) (p i : ℕ)
    → IsPaged g w t
    → g.depth p < 2
    → i < 512
    → is_valid (w.frames p i) ≡ true
    → Descent g w t p i
descend_present g w t p i v hp hi h = record {
  below = ppn (w.frames p i);
  shape = g;
  world = w;
  table = t;
  runs = descend_valid w t p i h;
  grows = record {
    paged = v;
    root = refl;
    depth = λ q x. refl;
    walks = λ q is x y. refl;
    kept = λ q j x y. refl;
    spent = omega arith;
  };
  valid = h;
  points = refl;
  is_child = v.tree.child p i hp hi h;
}

descend_absent :
    (g : Shape) (frames : Frames) (t : PageTable) (p i f : ℕ) (fs : List ℕ)
    → IsPaged g (record { frames = frames; supply = f ∷ fs }) t
    → g.depth p < 2
    → is_valid (frames p i) ≡ false
    → Descent g (record { frames = frames; supply = f ∷ fs }) t p i
unfolding descend alloc_frame
descend_absent g frames t p i f fs v hp h =
    let m = map_entry f 0 v.fresh.1 (omega arith) in
    let e = new f v_flag in
    let b = v.fresh in
    let ne : (q : ℕ) → g.depth q < 3 → f ≢ q = λ q x y. omega (arith, ap g.depth y, b.0) in
    record {
      below = ppn e;
      shape = grow g f p i;
      world = record { frames = link frames f p i e; supply = fs };
      table = record t { table_frames = f ∷ t.table_frames };
      runs = rw h refl;
      grows = record {
        paged = record {
          tree = grow-IsTree g frames t.root_frame v.tree f p i e b.0 hp h m.0 m.2;
          fresh = AreFresh-grow g f p i fs b.2 b.3;
        };
        root = refl;
        depth = λ q x. grow_depth g frames t.root_frame v.tree f p i e b.0 hp h m.0 m.2 q (ne q x);
        walks = walk-link g frames t.root_frame v.tree f p i e b.0 hp h m.0 m.2;
        kept = λ q j x y. link_ne frames f p i e q j (ne q x) (λ z. ground (arith, y, h, z.0, z.1));
        spent = omega arith;
      };
      valid = rw (write_self (clear frames f) p i e) m.2;
      points = ap ppn (write_self (clear frames f) p i e);
      is_child =
          subst (IsChild (grow g f p i) p i) (sym m.0)
            (new_IsChild g frames t.root_frame v.tree f p i e b.0 hp h m.0 m.2);
    }

descend_from :
    (g : Shape) (frames : Frames) (supply : List PhysPageNum) (t : PageTable) (p i : ℕ)
    → IsPaged g (record { frames = frames; supply = supply }) t
    → g.depth p < 2
    → i < 512
    → 0 < length supply
    → Descent g (record { frames = frames; supply = supply }) t p i
descend_from g frames [] t p i v hp hi s = absurd (omega arith)
descend_from g frames (f ∷ fs) t p i v hp hi s = elim (Bool-cases (is_valid (frames p i))) [
  | inl h ↦ descend_present g _ t p i v hp hi h
  | inr h ↦ descend_absent g frames t p i f fs v hp h
]

pub descend_lem :
    (g : Shape) (w : World) (t : PageTable) (p i : ℕ)
    → IsPaged g w t
    → g.depth p < 2
    → i < 512
    → 0 < length w.supply
    → Descent g w t p i
descend_lem g w t p i v hp hi s = descend_from g w.frames w.supply t p i v hp hi s
