-- ===== src/Memory/PageTable/Leaf.antt =====
-- Writing a line of the last level, where a page's walk arrives.
use asynclear.Prelude.{
  ℕ, ◌+◌, ◌<◌, ◌≡◌, ◌≢◌, refl, ap, none, some, List, [], ◌∷◌, length, if◌then◌else◌, arith, All,
  sym, ◌∙◌, subst,
}
use asynclear.Memory.Address.{VirtPageNum, PhysPageNum}
use asynclear.Memory.Pte.{PageTableEntry, is_valid, ppn}
use asynclear.Memory.PageTable.{write}
use asynclear.Memory.PageTable.Walk.{
  Frames, walk, Reaches, path_of, path_of-injective, path_of-bound, walk_ends, write_ne, write_self,
}
use asynclear.Memory.PageTable.Tree.{Shape, IsTree, IsChild, Reaches-unique, walk-write_other}

module _ (g : Shape) (frames : Frames) (root : PhysPageNum) (t : IsTree g frames root)
    (p : PhysPageNum) (k : ℕ) (e : PageTableEntry) (hp : g.depth p ≡ 2) where
  above_same : (q i : ℕ) → g.depth q < 2 → write frames p k e q i ≡ frames q i
  above_same q i h = write_ne frames p k q i e (λ x. omega (arith, ap g.depth x.0))

  pub write-IsTree : IsTree g (write frames p k e) root
  write-IsTree = record {
    top = t.top;
    child = λ q i hq hi y.
        subst (λ x. IsChild g q i (ppn x)) (sym (above_same q i hq))
          (t.child q i hq hi (rw (above_same q i hq) at y));
  }

  Reaches-write :
      (q : PhysPageNum) (is : List ℕ)
      → g.depth q + length is ≡ 3
      → All (λ (i : ℕ). i < 512) is
      → Reaches frames q is p k
      → Reaches (write frames p k e) q is p k
  Reaches-write q [] hq b r = r
  Reaches-write q (i ∷ []) hq b r = r
  Reaches-write q (i ∷ j ∷ is) hq b r =
      let c = t.child q i (omega arith) b.0 r.0 in
      rw (above_same q i (omega arith))
        (r.0, Reaches-write (ppn (frames q i)) (j ∷ is) (omega (arith, c.0)) b.1 r.1)

  -- The page's walk finds the new entry, if it is valid, and no other page's walk changes.
  pub leaf_write :
      (vpn : VirtPageNum)
      → vpn < 0x800_0000
      → Reaches frames root (path_of vpn) p k
      → (walk (write frames p k e) root (path_of vpn) ≡ (if is_valid e then some e else none))
        × ((n : VirtPageNum)
            → n < 0x800_0000
            → n ≢ vpn
            → walk (write frames p k e) root (path_of n) ≡ walk frames root (path_of n))
  leaf_write vpn h r = (
    walk_ends (write frames p k e) root (path_of vpn) p k
          (Reaches-write root (path_of vpn) (omega (arith, t.top)) (path_of-bound vpn) r)
        ∙ rw (write_self frames p k e) refl,
    λ n hn ne.
        walk-write_other g frames root t root p k e (path_of n) hp (omega (arith, t.top))
          (path_of-bound n)
          (λ x. ne (
            path_of-injective n vpn hn h
              (Reaches-unique g frames root t root root p k (path_of n) (path_of vpn) refl
                (omega (arith, t.top)) (omega (arith, t.top)) (path_of-bound n) (path_of-bound vpn)
                x r).1)),
  )
